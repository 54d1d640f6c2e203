-- ===== src/Engine/Pcap.antt =====
-- `PCAPEngine` of src/iec_core/engines/pcap_engine.cpp, whose constructor is all it has. The printed
-- message is left out.
use bpf_program.Base.{ℕ, ◌≡◌, ap, ◌∙◌, List, ◌∷◌}
use bpf_program.Base.Int.{ℤ}
use bpf_program.Kernel.Laws.{erase, erase-cons}

-- A pointer is its address.
pub record Pcap (W : Type 0) : Type 0 where
  -- `new pcap_if_t[count]`
  pub new_array : ℕ → W → ℕ × W
  -- `pcap_findalldevs`: the status, and what it has put in place of the pointer given
  pub find_all_devs : ℕ → W → (ℤ × ℕ) × W
  pub free_all_devs : ℕ → W → W

-- `arrays w` are the arrays not deleted, and `lists w` the lists of devices, empty ones too, that
-- libpcap has made and not freed.
pub record IsPcap {W : Type 0} (lib : Pcap W) : Type 0 where
  pub arrays : W → List ℕ
  pub lists : W → List ℕ
  pub arrays-new :
      (count : ℕ) (w : W) → arrays (lib.new_array count w).1 ≡ (lib.new_array count w).0 ∷ arrays w
  pub lists-new : (count : ℕ) (w : W) → lists (lib.new_array count w).1 ≡ lists w
  pub arrays-find : (list : ℕ) (w : W) → arrays (lib.find_all_devs list w).1 ≡ arrays w
  pub lists-find :
      (list : ℕ) (w : W)
      → lists (lib.find_all_devs list w).1 ≡ (lib.find_all_devs list w).0.1 ∷ lists w
  pub arrays-free : (list : ℕ) (w : W) → arrays (lib.free_all_devs list w) ≡ arrays w
  pub lists-free : (list : ℕ) (w : W) → lists (lib.free_all_devs list w) ≡ erase list (lists w)

module _ {W : Type 0} (lib : Pcap W) where
  -- The constructor, whose local variable `iface_list` is overwritten by `pcap_findalldevs`.
  unfoldable pub new : W → W
  new w =
      let made = lib.new_array 5 w in
      let found = lib.find_all_devs made.0 made.1 in lib.free_all_devs found.0.1 found.1

module _ {W : Type 0} {lib : Pcap W} (law : IsPcap lib) where
  open law use {
    arrays, lists, arrays-new, lists-new, arrays-find, lists-find, arrays-free, lists-free,
  }

  -- Whichever way the search for devices ends, the constructor leaves no list of devices, and one
  -- array more than there was.
  pub new-Leaks :
      (w : W)
      → (lists (new lib w) ≡ lists w) × (arrays (new lib w) ≡ (lib.new_array 5 w).0 ∷ arrays w)
  unfolding new
  new-Leaks w =
      let made = lib.new_array 5 w in
      let found = lib.find_all_devs made.0 made.1 in
      (
        lists-free found.0.1 found.1
            ∙ ap (erase found.0.1) (lists-find made.0 made.1)
            ∙ erase-cons found.0.1 (lists made.1)
            ∙ lists-new 5 w,
        arrays-free found.0.1 found.1 ∙ arrays-find made.0 made.1 ∙ arrays-new 5 w,
      )
