-- ===== src/Printf/Plain.antt =====
-- What `do_printf`, lib/stdio.c, does with text without conversions, and with a percent sign at the
-- end of its format.
use frod.Base.{ℕ, ◌≡◌, refl, ◌≢◌, arith, false, some, none, ◌∙◌}
use frod.Base.{List, [], ◌∷◌, ◌++◌, length, u32}
use frod.Printf.{Printer, Arg, emit, emit_all, step, run, start, do_printf}
use frod.Printf.Fields.{out-emit_all}
use frod.Printf.Count.{emit_all-Counted}

-- The text has no percent sign.
abbrev pub IsPlain : List ℕ → Type 0
IsPlain [] = Unit
IsPlain (c ∷ cs) = (c ≢ 37) × IsPlain cs

step_plain :
    (c : ℕ) (p : Printer) → c ≢ 37 → p.state ≡ 0 → p.unchecked ≡ false → step c p ≡ some (emit c p)
unfolding step emit
step_plain c p ne z u = rw (z, u) (ground arith)

run_plain :
    (fmt rest : List ℕ) (p : Printer)
    → IsPlain fmt
    → p.state ≡ 0
    → p.unchecked ≡ false
    → run (fmt ++ rest) p ≡ run rest (emit_all fmt p)
unfolding run emit_all emit
run_plain [] rest p n z u = refl
run_plain (c ∷ fmt) rest p (ne, n) z u =
    rw (step_plain c p ne z u) (run_plain fmt rest (emit c p) n z u)

emit_all_fields :
    (cs : List ℕ) (p : Printer)
    → ((emit_all cs p).state ≡ p.state) × ((emit_all cs p).unchecked ≡ p.unchecked)
unfolding emit_all emit
emit_all_fields [] p = (refl, refl)
emit_all_fields (c ∷ cs) p = emit_all_fields cs (emit c p)

-- A format without percent signs is put out as it is, whatever the arguments; if a percent sign
-- stands behind it, at the end of the format, the source reads on behind the format's end.
pub do_printf-IsPlain :
    (fmt : List ℕ) (args : List Arg)
    → IsPlain fmt
    → (do_printf (fmt ++ []) args ≡ some (fmt, u32 (length fmt)))
      × (do_printf (fmt ++ (37 ∷ [])) args ≡ none)
unfolding do_printf
do_printf-IsPlain fmt args n =
    let p : Printer = emit_all fmt (start args) in
    let z : p.state ≡ 0 = (emit_all_fields fmt (start args)).0 ∙ unfold start in refl in
    let u : p.unchecked ≡ false = (emit_all_fields fmt (start args)).1 ∙ unfold start in refl in
    let z0 : (start args).state ≡ 0 = unfold start in refl in
    let u0 : (start args).unchecked ≡ false = unfold start in refl in
    let o : p.out ≡ fmt = out-emit_all fmt (start args) ∙ unfold start in refl in
    let c : p.count ≡ u32 (length p.out) =
      emit_all-Counted fmt (start args) (unfold start in refl) in
    (
      rw (run_plain fmt [] (start args) n z0 u0) (unfold run in (rw (u, c, o) refl)),
      rw (run_plain fmt (37 ∷ []) (start args) n z0 u0) (unfold run step in (rw z refl)),
    )
