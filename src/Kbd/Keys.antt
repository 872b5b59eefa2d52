-- ===== src/Kbd/Keys.antt =====
-- The keyboard maps of src/sys/kbd.c as trees, and what a sequence of scan codes types.
use frod.Base.{
  ℕ, ◌+◌, ◌*◌, ◌<◌, ◌≡◌, refl, ◌∙◌, ap, arith, true, false, List, [], ◌∷◌, ◌++◌, Memory, u8, u32,
  map,
}
use frod.Ports.{is_set}
use frod.Kbd.{Kbd, kbd_init, kbd_add_scancode}

-- A scan code is a key, or leads to a map for the next scan code.
pub data KeyTree : Type 0 where
  key : ℕ → KeyTree
  more : (ℕ → KeyTree) → KeyTree

-- The map for the next scan code, and the key codes so far, the latest first.
abbrev pub Typing : Type 0
Typing = (ℕ → KeyTree) × List ℕ

abbrev pub after : (ℕ → KeyTree) → List ℕ → KeyTree → Typing
after root out (key code) = (root, code ∷ out)
after root out (more g) = (g, out)

abbrev pub press : (ℕ → KeyTree) → ℕ → Typing → Typing
press root sc (f, out) = after root out (f sc)

-- The scan codes from the first to the last.
abbrev pub type_all : (ℕ → KeyTree) → List ℕ → Typing → Typing
type_all root [] t = t
type_all root (sc ∷ scs) t = type_all root scs (press root sc t)

abbrev pub add_scancodes : Memory → List ℕ → Kbd → Kbd
add_scancodes m [] k = k
add_scancodes m (sc ∷ scs) k = add_scancodes m scs (kbd_add_scancode m (u8 sc) k)

-- The entry at the address `a` holds the tree, with the maps that it leads to.
unfoldable pub IsEntry : Memory → ℕ → KeyTree → ℕ → Type 0
IsEntry m orig (key code) a = (m a ≡ code) × (is_set (m (a + 1)) 0x80 ≡ false)
IsEntry m orig (more g) a =
    (is_set (m (a + 1)) 0x80 ≡ true)
    × ((sc : ℕ) → sc < 256 → IsEntry m orig (g sc) (u32 (orig + m a * 256 * 2) + 2 * sc))

abbrev pub IsMap : Memory → ℕ → (ℕ → KeyTree) → ℕ → Type 0
IsMap m orig f map = (sc : ℕ) → sc < 256 → IsEntry m orig (f sc) (map + 2 * sc)

-- The keyboard stands where the typing does.
pub record Shows (m : Memory) (root : ℕ → KeyTree) (k : Kbd) (t : Typing) : Type 0 where
  pub root_map : IsMap m k.orig_map root k.orig_map
  pub here : IsMap m k.orig_map (t.0) k.curr_map
  pub out : k.printed ≡ t.1

module _ (m : Memory) (root : ℕ → KeyTree) where
  pub kbd_init-Shows :
      (keymap : ℕ) (k : Kbd)
      → IsMap m keymap root keymap
      → Shows m root (kbd_init keymap k) (root, k.printed)
  unfolding kbd_init
  kbd_init-Shows keymap k stored = record { root_map = stored; here = stored; out = refl }

  press-entry :
      (sc : ℕ) (k : Kbd) (out : List ℕ) (e : KeyTree)
      → IsMap m k.orig_map root k.orig_map
      → IsEntry m k.orig_map e (k.curr_map + 2 * sc)
      → k.printed ≡ out
      → Shows m root (kbd_add_scancode m sc k) (after root out e)
  unfolding kbd_add_scancode IsEntry
  press-entry sc k out (key code) rooted (kc, flag) same =
      rw flag (record { root_map = rooted; here = rooted; out = rw (kc, same) refl })
  press-entry sc k out (more g) rooted (flag, next) same =
      rw flag (record { root_map = rooted; here = next; out = same })

  pub kbd_add_scancode-Shows :
      (sc : ℕ) (k : Kbd) (t : Typing)
      → sc < 256
      → Shows m root k t
      → Shows m root (kbd_add_scancode m sc k) (press root sc t)
  kbd_add_scancode-Shows sc k (f, out) lt s =
      press-entry sc k out (f sc) s.root_map (s.here sc lt) s.out

  -- For a keymap in memory that holds a tree of maps, any sequence of scan codes leaves the keyboard
  -- where the same presses lead in the tree: at the map that waits for the next scan code, or at the
  -- first one, with exactly the codes of the keys printed, in order.
  pub add_scancodes-Shows :
      (scs : List ℕ) (k : Kbd) (t : Typing)
      → Shows m root k t
      → Shows m root (add_scancodes m scs k) (type_all root (map u8 scs) t)
  add_scancodes-Shows [] k t s = s
  add_scancodes-Shows (sc ∷ scs) k t s =
      add_scancodes-Shows scs (kbd_add_scancode m (u8 sc) k) (press root (u8 sc) t)
        (kbd_add_scancode-Shows (u8 sc) k t (omega arith) s)

-- The scan codes that lead to a key.
pub data IsPath : (ℕ → KeyTree) → List ℕ → ℕ → Type 0 where
  last : {f : ℕ → KeyTree} {sc code : ℕ} → f sc ≡ key code → IsPath f (sc ∷ []) code
  first :
      {f g : ℕ → KeyTree} {sc code : ℕ} {scs : List ℕ}
      → f sc ≡ more g
      → IsPath g scs code
      → IsPath f (sc ∷ scs) code

-- The scan codes of the keys, one key after the other.
pub data AreKeys : (ℕ → KeyTree) → List ℕ → List ℕ → Type 0 where
  no_keys : {root : ℕ → KeyTree} → AreKeys root [] []
  one_more :
      {root : ℕ → KeyTree} {p scs codes : List ℕ} {code : ℕ}
      → IsPath root p code
      → AreKeys root scs codes
      → AreKeys root (p ++ scs) (code ∷ codes)

-- The codes with those of before behind them, the latest first.
abbrev pub printing : List ℕ → List ℕ → List ℕ
printing [] out = out
printing (code ∷ codes) out = printing codes (code ∷ out)

type_all-IsPath :
    (root : ℕ → KeyTree) {f : ℕ → KeyTree} {p : List ℕ} {code : ℕ} (scs out : List ℕ)
    → IsPath f p code
    → type_all root (p ++ scs) (f, out) ≡ type_all root scs (root, code ∷ out)
type_all-IsPath root scs out (last e) = ap (λ t. type_all root scs (after root out t)) e
type_all-IsPath root scs out (first {scs = p} e path) =
    ap (λ t. type_all root (p ++ scs) (after root out t)) e ∙ type_all-IsPath root scs out path

pub type_all-AreKeys :
    (root : ℕ → KeyTree) {scs codes : List ℕ} (out : List ℕ)
    → AreKeys root scs codes
    → type_all root scs (root, out) ≡ (root, printing codes out)
type_all-AreKeys root out no_keys = refl
type_all-AreKeys root out (one_more {scs = scs} p ks) =
    type_all-IsPath root scs out p ∙ type_all-AreKeys root (_ ∷ out) ks

-- Behind `kbd_init` with a keymap in memory that holds a tree of maps, the scan codes of any keys,
-- one key after the other, print exactly the codes of these keys, in order, and leave the keyboard at
-- the first map, where the next key starts.
pub add_scancodes-AreKeys :
    (m : Memory) (root : ℕ → KeyTree) (keymap : ℕ) (k : Kbd) (scs codes : List ℕ)
    → IsMap m keymap root keymap
    → AreKeys root (map u8 scs) codes
    → let k1 = add_scancodes m scs (kbd_init keymap k) in
      (k1.printed ≡ printing codes k.printed) × Shows m root k1 (root, printing codes k.printed)
add_scancodes-AreKeys m root keymap k scs codes stored keys =
    let s =
      add_scancodes-Shows m root scs (kbd_init keymap k) (root, k.printed)
        (kbd_init-Shows m root keymap k stored) in
    let e = type_all-AreKeys root k.printed keys in
    let shown : Shows m root (add_scancodes m scs (kbd_init keymap k))
        (root, printing codes k.printed) =
      rw e at s in
    (shown.out, shown)
