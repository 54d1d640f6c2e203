-- ===== src/Filter/Shapes.antt =====
-- Which packets the program of bpf/ethernet-parse.c keeps, by how their PDU begins.
use bpf_program.Base.{
  ℕ, ◌+◌, ◌*◌, ◌<◌, ◌≡◌, ◌≢◌, refl, sym, ap, ◌∙◌, ◌↔◌, Bool, true, false, not, ◌&&◌, ◌||◌, Option,
  some, List, [], ◌∷◌, ◌++◌, length, take, All, ◌==◌, arith, length-append,
}
use mathlib.Core.List.{append_assoc}
use bpf_program.Bytes.{of_be}
use bpf_program.Filter.{
  Load, Ethernet, Settings, iec_proto, sv_ethertype, pdu_size, after, drop_unless, compare_id,
  iec61850_filter,
}
use bpf_program.Filter.Loads.{IsLoad, IsEthernet, load-at}
use bpf_program.Filter.Compare.{sv_id_cmp_iff}

-- A packet down to the first bytes of its PDU.
pub record Packet : Type 0 where
  pub dst : List ℕ
  pub src : List ℕ
  pub kind : List ℕ
  pub start : List ℕ
  pub pdu : List ℕ

pub record IsPacket (p : Packet) : Type 0 where
  pub dst : length p.dst ≡ 6
  pub src : length p.src ≡ 6
  pub kind : length p.kind ≡ 2
  pub start : length p.start ≡ 8

abbrev pub before : Packet → List ℕ
before p = p.dst ++ (p.src ++ (p.kind ++ p.start))

abbrev pub bytes : Packet → List ℕ
bytes p = before p ++ p.pdu

-- The checks on the Ethernet header.
abbrev pub addressed : Settings → Packet → Bool
addressed settings p =
    (of_be p.kind == iec_proto || of_be p.kind == sv_ethertype)
    && (not (settings.iface_mac == of_be p.src) && settings.src_mac == of_be p.src)

-- The settings' characters stand where the identifier of the first ASDU is read.
abbrev pub Matches : List ℕ → ℕ → List ℕ → Type 0
Matches sv_id count rest = (length sv_id ≡ count) × (take (length sv_id) rest ≡ sv_id)

drop_unless-and :
    (a b c : Bool) (rest : Option Bool)
    → drop_unless a (drop_unless b (drop_unless c rest)) ≡ drop_unless (a && (b && c)) rest
drop_unless-and true true c rest = refl
drop_unless-and true false c rest = refl
drop_unless-and false b c rest = refl

module _ {load : Load} (is : IsLoad load) {ethernet : Ethernet} (layout : IsEthernet ethernet) where
  load-src : (p : Packet) → IsPacket p → load (bytes p) ethernet.src 6 ≡ some (of_be p.src)
  load-src p shape =
      load-at is (bytes p) p.dst p.src (p.kind ++ p.start ++ p.pdu) ethernet.src 6
        (simp (append_assoc)) (shape.dst ∙ sym layout.src) shape.src

  load-kind : (p : Packet) → IsPacket p → load (bytes p) ethernet.kind 2 ≡ some (of_be p.kind)
  load-kind p shape =
      load-at is (bytes p) (p.dst ++ p.src) p.kind (p.start ++ p.pdu) ethernet.kind 2
        (simp (append_assoc))
        (omega (arith, length-append p.dst p.src, shape.dst, shape.src, layout.kind)) shape.kind

  length-before : (p : Packet) → IsPacket p → length (before p) ≡ 22
  length-before p shape = omega (
    arith,
    length-append p.dst (p.src ++ (p.kind ++ p.start)),
    length-append p.src (p.kind ++ p.start),
    length-append p.kind p.start,
    shape.dst,
    shape.src,
    shape.kind,
    shape.start,
  )

  -- A load of the PDU's bytes behind some of them.
  load-pdu :
      (p : Packet) (front mid back : List ℕ) (offset count : ℕ)
      → IsPacket p
      → p.pdu ≡ front ++ (mid ++ back)
      → 22 + length front ≡ offset
      → length mid ≡ count
      → load (bytes p) offset count ≡ some (of_be mid)
  load-pdu p front mid back offset count shape e o c =
      load-at is (bytes p) (before p ++ front) mid back offset count
        (ap (λ l. before p ++ l) e ∙ sym (append_assoc (before p) front (mid ++ back)))
        (omega (arith, length-append (before p) front, length-before p shape, o)) c

  filter-addressed :
      (settings : Settings) (p : Packet)
      → IsPacket p
      → iec61850_filter load ethernet settings (bytes p)
        ≡ drop_unless (addressed settings p) (
            after
              (load (bytes p) 22 2)
              (λ pdu_id. compare_id load settings.sv_id (bytes p) 22 (pdu_size pdu_id)))
  unfolding iec61850_filter
  filter-addressed settings p shape =
      rw (load-src p shape, load-kind p shape, layout.size)
        (drop_unless-and (of_be p.kind == iec_proto || of_be p.kind == sv_ethertype)
          (not (settings.iface_mac == of_be p.src)) (settings.src_mac == of_be p.src)
          (after (load (bytes p) 22 2)
            (λ pdu_id. compare_id load settings.sv_id (bytes p) 22 (pdu_size pdu_id))))

  compare_id_iff :
      (p : Packet) (size : ℕ) (sv_id front : List ℕ) (count : ℕ) (rest : List ℕ)
      → IsPacket p
      → All (λ c. c < 128) sv_id
      → p.pdu ≡ front ++ (count ∷ rest)
      → length front ≡ size + 3
      → (compare_id load sv_id (bytes p) 22 (some size) ≡ some true)
        ↔ ((length sv_id ≡ count) × (take (length sv_id) rest ≡ sv_id))
  unfolding compare_id
  compare_id_iff p size sv_id front count rest shape ascii e o =
      let loaded : load (bytes p) (22 + size + 3) 1 ≡ some (of_be (count ∷ [])) =
        load-pdu p front (count ∷ []) rest (22 + size + 3) 1 shape e (omega (arith, o)) refl in
      let value : of_be (count ∷ []) ≡ count = omega arith in
      let whole : bytes p ≡ before p ++ front ++ (count ∷ []) ++ rest =
        ap (λ l. before p ++ l) e
        ∙ sym (append_assoc (before p) front (count ∷ rest))
        ∙ sym (append_assoc (before p ++ front) (count ∷ []) rest) in
      let here : length (before p ++ front ++ (count ∷ [])) ≡ 22 + size + 4 = omega (
        arith,
        length-append (before p ++ front) (count ∷ []),
        length-append (before p) front,
        length-before p shape,
        o,
      ) in
      rw (loaded, value, whole, sym here)
        (sv_id_cmp_iff is (before p ++ front ++ (count ∷ [])) sv_id rest count ascii)

  drop_unless_iff :
      {P : Type 0} (b : Bool) (rest : Option Bool)
      → (rest ≡ some true) ↔ P
      → (drop_unless b rest ≡ some true) ↔ ((b ≡ true) × P)
  drop_unless_iff true rest h = (λ p. (refl, h.0 p), λ p. h.1 p.1)
  drop_unless_iff false rest h = (λ p. absurd (cc), λ p. absurd (let q = p.0 in cc))

  filter-sized :
      (settings : Settings) (p : Packet) (size first second : ℕ) (more : List ℕ) (count : ℕ)
      (rest : List ℕ)
      → IsPacket p
      → All (λ c. c < 128) settings.sv_id
      → p.pdu ≡ (first ∷ second ∷ more) ++ (count ∷ rest)
      → length (first ∷ second ∷ more) ≡ size + 3
      → pdu_size (256 * first + second) ≡ some size
      → (iec61850_filter load ethernet settings (bytes p) ≡ some true)
        ↔ ((addressed settings p ≡ true) × Matches settings.sv_id count rest)
  filter-sized settings p size first second more count rest shape ascii e o s =
      let two : load (bytes p) 22 2 ≡ some (of_be (first ∷ second ∷ [])) =
        load-pdu p [] (first ∷ second ∷ []) (more ++ (count ∷ rest)) 22 2 shape e refl refl in
      let value : of_be (first ∷ second ∷ []) ≡ 256 * first + second = omega arith in
      rw (filter-addressed settings p shape, two, value, s)
        (drop_unless_iff (addressed settings p)
          (compare_id load settings.sv_id (bytes p) 22 (some size))
          (compare_id_iff p size settings.sv_id (first ∷ second ∷ more) count rest shape ascii e o))

  pdu_size-short : (x : ℕ) → x < 256 → x ≢ 0x82 → pdu_size (256 * 0x60 + x) ≡ some 7
  unfolding pdu_size
  pdu_size-short x h n = ground arith

  -- A packet whose PDU begins with 0x60, a length in one byte other than 0x82 and eight bytes is
  -- kept exactly if it has an accepted type, comes from the wanted address and not from the
  -- interface's own, and its identifier is the wanted one. A wanted identifier of 7-bit characters,
  -- loads that give the packet's bytes and the layout of an Ethernet header are presumed.
  pub filter-short :
      (settings : Settings) (p : Packet) (x : ℕ) (more : List ℕ) (count : ℕ) (rest : List ℕ)
      → IsPacket p
      → All (λ c. c < 128) settings.sv_id
      → x < 256
      → x ≢ 0x82
      → length more ≡ 8
      → p.pdu ≡ (0x60 ∷ x ∷ more) ++ (count ∷ rest)
      → (iec61850_filter load ethernet settings (bytes p) ≡ some true)
        ↔ ((addressed settings p ≡ true) × Matches settings.sv_id count rest)
  filter-short settings p x more count rest shape ascii small other o e =
      filter-sized settings p 7 0x60 x more count rest shape ascii e (omega (arith, o))
        (pdu_size-short x small other)

  -- A packet whose PDU begins with 0x60, 0x82 and twelve bytes is kept exactly if it has an accepted
  -- type, comes from the wanted address and not from the interface's own, and its identifier is the
  -- wanted one. A wanted identifier of 7-bit characters, loads that give the packet's bytes and the
  -- layout of an Ethernet header are presumed.
  pub filter-long :
      (settings : Settings) (p : Packet) (more : List ℕ) (count : ℕ) (rest : List ℕ)
      → IsPacket p
      → All (λ c. c < 128) settings.sv_id
      → length more ≡ 12
      → p.pdu ≡ (0x60 ∷ 0x82 ∷ more) ++ (count ∷ rest)
      → (iec61850_filter load ethernet settings (bytes p) ≡ some true)
        ↔ ((addressed settings p ≡ true) × Matches settings.sv_id count rest)
  unfolding pdu_size
  filter-long settings p more count rest shape ascii o e =
      filter-sized settings p 11 0x60 0x82 more count rest shape ascii e (omega (arith, o)) refl
