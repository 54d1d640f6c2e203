-- ===== src/Filter/Loads.antt =====
-- What bpf/ethernet-parse.c relies on from bcc and the kernel.
use bpf_program.Base.{ℕ, ◌+◌, ◌<◌, ◌≡◌, sym, none, some, List, ◌++◌, length}
use bpf_program.Bytes.{of_be}
use bpf_program.Filter.{Load, Ethernet}

-- A load inside the packet gives the big-endian number of its bytes, one outside gives nothing.
pub record IsLoad (load : Load) : Type 0 where
  pub inside :
      (front mid back : List ℕ)
      → load (front ++ (mid ++ back)) (length front) (length mid) ≡ some (of_be mid)
  pub outside :
      (packet : List ℕ) (offset count : ℕ)
      → length packet < offset + count
      → load packet offset count ≡ none

-- Six bytes of destination, six of source, two of type.
pub record IsEthernet (ethernet : Ethernet) : Type 0 where
  pub size : ethernet.size ≡ 14
  pub src : ethernet.src ≡ 6
  pub kind : ethernet.kind ≡ 12

pub load-at :
    {load : Load}
    → IsLoad load
    → (packet front mid back : List ℕ) (offset count : ℕ) → packet ≡ front ++ (mid ++ back)
    → length front ≡ offset
    → length mid ≡ count
    → load packet offset count ≡ some (of_be mid)
load-at {load} is packet front mid back offset count p o c =
    rw (p, sym o, sym c) (is.inside front mid back)
