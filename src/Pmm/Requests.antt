-- ===== src/Pmm/Requests.antt =====
-- The allocator of src/sys/pmm.c against a set of blocks: any sequence of requests has the same
-- answers from the bitmap as from the set.
use frod.Base.{
  ℕ, zero, suc, ◌+◌, ◌-◌, ◌*◌, ◌/◌, ◌^◌, ◌≤◌, ◌==◌, ◌≡◌, refl, ◌∙◌, ap, arith, Bool, true, false,
  Bool-cases, inl, inr, not, if◌then◌else◌, List, [], ◌∷◌, Option, none, some, IsBytes,
}
use frod.Pmm.{
  Pmm, blk_sz, bitmap_set, bitmap_unset, bitmap_is_set, alloc_from, pmm_alloc_first, pmm_free,
}
use frod.Pmm.Bitmap.{is_set-set, is_set-unset, set-IsBytes, unset-IsBytes}

-- A call of `pmm_alloc_first`, or of `pmm_free` with an address.
pub data Request : Type 0 where
  allocate : Request
  give_back : ℕ → Request

-- The set of the blocks that are taken.
abbrev pub Blocks : Type 0
Blocks = ℕ → Bool

abbrev pub update : ℕ → Bool → Blocks → Blocks
update i b taken j = if j == i then b else taken j

-- The lowest block that is not in the set, among the `left` ones from `i` on.
abbrev pub lowest : ℕ → ℕ → Blocks → Option ℕ
lowest zero i taken = none
lowest (suc left) i taken =
    let rest = lowest left (i + 1) taken in if not (taken i) then some i else rest

abbrev pub taking : Blocks → Option ℕ → Blocks × ℕ
taking taken none = (taken, 0)
taking taken (some i) = (update i true taken, i * blk_sz)

-- What the set of the blocks below `sz` answers.
abbrev pub serve : ℕ → Request → Blocks → Blocks × ℕ
serve sz allocate taken = taking taken (lowest (sz - 1) 1 taken)
serve sz (give_back a) taken = (update (a / blk_sz) false taken, 0)

abbrev pub serve_all : ℕ → List Request → Blocks → Blocks × List ℕ
serve_all sz [] taken = (taken, [])
serve_all sz (q ∷ qs) taken =
    let (t1, answer) = serve sz q taken in
    let (t2, answers) = serve_all sz qs t1 in (t2, answer ∷ answers)

-- What the allocator answers.
abbrev pub call : Request → Pmm → Pmm × ℕ
call allocate s = pmm_alloc_first s
call (give_back a) s = (pmm_free a s, 0)

abbrev pub call_all : List Request → Pmm → Pmm × List ℕ
call_all [] s = (s, [])
call_all (q ∷ qs) s =
    let (s1, answer) = call q s in let (s2, answers) = call_all qs s1 in (s2, answer ∷ answers)

-- The bitmap holds the set.
pub record HoldsSet (sz : ℕ) (s : Pmm) (taken : Blocks) : Type 0 where
  pub size : s.pmm_bitmap_sz ≡ sz
  pub bytes : IsBytes s.mem
  pub bits : (j : ℕ) → bitmap_is_set s j ≡ taken j

set-HoldsSet :
    (sz i : ℕ) (s : Pmm) (taken : Blocks)
    → HoldsSet sz s taken
    → HoldsSet sz (bitmap_set s i) (update i true taken)
set-HoldsSet sz i s taken h = record {
  size = unfold bitmap_set in h.size;
  bytes = set-IsBytes s i h.bytes;
  bits = λ j. ground (arith, is_set-set s i j h.bytes, h.bits j);
}

unset-HoldsSet :
    (sz i : ℕ) (s : Pmm) (taken : Blocks)
    → HoldsSet sz s taken
    → HoldsSet sz (bitmap_unset s i) (update i false taken)
unset-HoldsSet sz i s taken h = record {
  size = unfold bitmap_unset in h.size;
  bytes = unset-IsBytes s i h.bytes;
  bits = λ j. ground (arith, is_set-unset s i j h.bytes, h.bits j);
}

-- The same answer, and the set of behind it.
abbrev pub Agrees : ℕ → Pmm × ℕ → Blocks × ℕ → Type 0
Agrees sz (s, a) (taken, b) = (a ≡ b) × HoldsSet sz s taken

alloc_from-Agrees :
    (sz left i : ℕ) (s : Pmm) (taken : Blocks)
    → i + left ≤ 2 ^ 20
    → HoldsSet sz s taken
    → Agrees sz (alloc_from left i s) (taking taken (lowest left i taken))
unfolding alloc_from
alloc_from-Agrees sz zero i s taken le h = (refl, h)
alloc_from-Agrees sz (suc left) i s taken le h = elim (Bool-cases (taken i)) [
  | inl used ↦
      let bit : bitmap_is_set s i ≡ true = h.bits i ∙ used in
      rw (bit, used) (alloc_from-Agrees sz left (i + 1) s taken (omega arith) h)
  | inr free ↦
      let bit : bitmap_is_set s i ≡ false = h.bits i ∙ free in
      rw (bit, free) (omega arith, set-HoldsSet sz i s taken h)
]

pub call-Agrees :
    (sz : ℕ) (q : Request) (s : Pmm) (taken : Blocks)
    → 1 ≤ sz
    → sz ≤ 2 ^ 20
    → HoldsSet sz s taken
    → Agrees sz (call q s) (serve sz q taken)
unfolding pmm_alloc_first pmm_free
call-Agrees sz allocate s taken one le h =
    let e : s.pmm_bitmap_sz - 1 ≡ sz - 1 = ap (λ n. n - 1) h.size in
    rw e (alloc_from-Agrees sz (sz - 1) 1 s taken (omega arith) h)
call-Agrees sz (give_back a) s taken one le h = (refl, unset-HoldsSet sz (a / blk_sz) s taken h)

-- For a bitmap of 1 to 2^20 blocks that holds a set, any sequence of allocations and of returned
-- addresses gives the same answers as the set, which always gives its lowest free block from 1 on,
-- or 0 if there is none; and the bitmap holds the set at the end.
pub call_all-HoldsSet :
    (sz : ℕ) (qs : List Request) (s : Pmm) (taken : Blocks)
    → 1 ≤ sz
    → sz ≤ 2 ^ 20
    → HoldsSet sz s taken
    → let (t, answers) = call_all qs s in
      let (end, expected) = serve_all sz qs taken in (answers ≡ expected) × HoldsSet sz t end
call_all-HoldsSet sz [] s taken one le h = (refl, h)
call_all-HoldsSet sz (q ∷ qs) s taken one le h =
    let (same, h1) = call-Agrees sz q s taken one le h in
    let (rest, h2) = call_all-HoldsSet sz qs (call q s).0 (serve sz q taken).0 one le h1 in
    (rw (same, rest) refl, h2)
