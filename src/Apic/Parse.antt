-- ===== src/Apic/Parse.antt =====
-- What parse_madt of src/sys/apic.c finds in a table of interrupt controllers.
use just_kernel.Base.{
  ℕ, zero, suc, ◌+◌, ◌≤◌, ◌<◌, ◌≡◌, refl, sym, ◌∙◌, inl, inr, true, false, some, List, [], ◌∷◌,
  ◌++◌, append-nil, append_assoc, ltb, ◌==◌, if◌then◌else◌, Bool-cases, u32, sub32, arith,
}
use just_kernel.Klibc.{Memory, word_at}
use just_kernel.Apic.Madt.{Madt, plist_add, add_entry, parse_loop, parse_madt}

pub record Entry : Type 0 where
  pub type : ℕ
  pub size : ℕ

module _ (mem : Memory) (madt : ℕ) where
  -- The entries stand one behind the other from offset `e` to offset `end`.
  unfoldable pub Laid : (e : ℕ) → List Entry → (end : ℕ) → Type 0
  Laid e [] end = e ≡ end
  Laid e (x ∷ xs) end =
      (mem (madt + 44 + e) ≡ x.type)
      × (mem (madt + 44 + e + 1) ≡ x.size)
      × (2 ≤ x.size)
      × (x.size < 256)
      × (e + x.size ≤ end)
      × Laid (e + x.size) xs end

-- The addresses of what follows the type and the size in the entries of type `k`, in their order.
unfoldable pub of_type : (k madt e : ℕ) → List Entry → List ℕ
of_type k madt e [] = []
of_type k madt e (x ∷ xs) =
    let rest = of_type k madt (e + x.size) xs in
    if x.type == k then (madt + 44 + e + 2) ∷ rest else rest

plist_add-of_type :
    (k madt e : ℕ) (x : Entry) (xs : List Entry) (root : List ℕ)
    → plist_add (x.type == k) (madt + 44 + e + 2) root ++ of_type k madt (e + x.size) xs
      ≡ root ++ of_type k madt e (x ∷ xs)
unfolding of_type
plist_add-of_type k madt e x xs root = elim (Bool-cases (x.type == k)) [
  | inl same ↦
      rw same (append_assoc root ((madt + 44 + e + 2) ∷ []) (of_type k madt (e + x.size) xs))
  | inr other ↦ rw other refl
]

-- The four lists have grown by the entries of their types.
pub record Parsed (madt e : ℕ) (xs : List Entry) (s s' : Madt) : Type 0 where
  pub cpu : s'.madt_cpu ≡ s.madt_cpu ++ of_type 0 madt e xs
  pub ioapic : s'.madt_ioapic ≡ s.madt_ioapic ++ of_type 1 madt e xs
  pub iso : s'.madt_iso ≡ s.madt_iso ++ of_type 2 madt e xs
  pub nmi : s'.madt_nmi ≡ s.madt_nmi ++ of_type 4 madt e xs

module _ (mem : Memory) (madt : ℕ) where
  parse_loop-next :
      (fuel bytes e type size : ℕ) (s : Madt)
      → mem (madt + 44 + e) ≡ type
      → mem (madt + 44 + e + 1) ≡ size
      → 2 ≤ size
      → size < 256
      → e + size ≤ bytes
      → madt + 44 + bytes < 4294967296
      → parse_loop mem madt (suc fuel) bytes e s
        ≡ parse_loop mem madt fuel bytes (e + size) (add_entry mem madt type (madt + 44 + e + 2) s)
  unfolding parse_loop
  parse_loop-next fuel bytes e type size s typed sized low high inside fits =
      let more : ltb e bytes ≡ true = ground arith in
      let at : u32 (madt + 44 + e) ≡ madt + 44 + e = omega arith in
      let at1 : u32 (madt + 44 + u32 (e + 1)) ≡ madt + 44 + e + 1 = omega arith in
      let at2 : u32 (madt + 44 + u32 (e + 2)) ≡ madt + 44 + e + 2 = omega arith in
      let next : u32 (u32 (u32 (e + 2) + sub32 size 3) + 1) ≡ e + size = omega arith in
      rw (more, at, at1, at2, typed, sized, next, parse_loop) refl

  parse_loop-done :
      (fuel bytes e : ℕ) (s : Madt) → bytes ≤ e → parse_loop mem madt (suc fuel) bytes e s ≡ some s
  unfolding parse_loop
  parse_loop-done fuel bytes e s done =
      let stop : ltb e bytes ≡ false = ground arith in rw stop refl

  parse_loop-Parsed :
      (fuel bytes e : ℕ) (xs : List Entry) (s : Madt)
      → Laid mem madt e xs bytes
      → bytes < e + fuel
      → madt + 44 + bytes < 4294967296
      → (s' : Madt) × (parse_loop mem madt fuel bytes e s ≡ some s') × Parsed madt e xs s s'
  unfolding Laid of_type
  parse_loop-Parsed zero bytes e [] s end enough fits = absurd (omega arith)
  parse_loop-Parsed zero bytes e (x ∷ xs) s (typed, sized, low, high, inside, laid) enough fits =
      absurd (omega arith)
  parse_loop-Parsed (suc fuel) bytes e [] s end enough fits = (
    s,
    parse_loop-done fuel bytes e s (omega arith),
    record {
      cpu = sym (append-nil _);
      ioapic = sym (append-nil _);
      iso = sym (append-nil _);
      nmi = sym (append-nil _);
    },
  )
  parse_loop-Parsed (suc fuel) bytes e (x ∷ xs) s (typed, sized, low, high, inside, laid) enough
        fits =
      let ent = madt + 44 + e + 2 in
      let (s', ran, parsed) =
        parse_loop-Parsed fuel bytes (e + x.size) xs (add_entry mem madt x.type ent s) laid
          (omega arith) fits in
      (
        s',
        parse_loop-next fuel bytes e x.type x.size s typed sized low high inside fits ∙ ran,
        record {
          cpu = parsed.cpu ∙ plist_add-of_type 0 madt e x xs s.madt_cpu;
          ioapic = parsed.ioapic ∙ plist_add-of_type 1 madt e x xs s.madt_ioapic;
          iso = parsed.iso ∙ plist_add-of_type 2 madt e x xs s.madt_iso;
          nmi = parsed.nmi ∙ plist_add-of_type 4 madt e x xs s.madt_nmi;
        },
      )

pub record IsParsed (mem : Memory) (madt : ℕ) (xs : List Entry) (s' : Madt) : Type 0 where
  pub cpu : s'.madt_cpu ≡ of_type 0 madt 0 xs
  pub ioapic : s'.madt_ioapic ≡ of_type 1 madt 0 xs
  pub iso : s'.madt_iso ≡ of_type 2 madt 0 xs
  pub nmi : s'.madt_nmi ≡ of_type 4 madt 0 xs

parse_madt-ran :
    (mem : Memory) (madt fuel bytes : ℕ) (s s1 : Madt)
    → 0 < madt
    → word_at mem (madt + 4) ≡ bytes + 44
    → bytes < 4294967252
    → parse_loop mem madt fuel bytes 0 (record {
      lapic_base = word_at mem (madt + 36);
      madt_cpu = [];
      madt_ioapic = [];
      madt_iso = [];
      madt_nmi = [];
      mapped = s.mapped ++ ((madt, 4) ∷ []);
    })
      ≡ some s1
    → parse_madt mem madt fuel s
      ≡ some (true, record s1 { mapped = s1.mapped ++ ((s1.lapic_base, 2) ∷ []) })
unfolding parse_madt
parse_madt-ran mem madt fuel bytes s s1 found length fits ran =
    let there : (madt == 0) ≡ false = ground arith in
    let rest : sub32 (bytes + 44) 44 ≡ bytes = omega arith in rw (there, length, rest, ran) refl

-- On a table whose entries, each of 2 to 255 bytes, stand one behind the other and end with the table,
-- below the end of the address space, parse_madt returns true, with more fuel than the entries have
-- bytes, and its four lists hold the entries of their types, in the order of the table.
pub parse_madt-IsParsed :
    (mem : Memory) (madt fuel bytes : ℕ) (xs : List Entry) (s : Madt)
    → 0 < madt
    → word_at mem (madt + 4) ≡ bytes + 44
    → Laid mem madt 0 xs bytes
    → bytes < fuel
    → madt + 44 + bytes < 4294967296
    → (s' : Madt) × (parse_madt mem madt fuel s ≡ some (true, s')) × IsParsed mem madt xs s'
parse_madt-IsParsed mem madt fuel bytes xs s found length laid enough fits =
    let (s1, ran, parsed) = parse_loop-Parsed mem madt fuel bytes 0 xs _ laid (omega arith) fits in
    (
      record s1 { mapped = s1.mapped ++ ((s1.lapic_base, 2) ∷ []) },
      parse_madt-ran mem madt fuel bytes s s1 found length (omega arith) ran,
      record { cpu = parsed.cpu; ioapic = parsed.ioapic; iso = parsed.iso; nmi = parsed.nmi },
    )
