-- ===== src/Prelude/Dict.antt =====
-- Go's maps with string keys, as the function that looks a key up.
use gfire.Prelude.Tests.{if◌then◌else◌, Bool-cases}
use Prim.Native.String.{String}
use mathlib.Core.Bool.{Bool, true, false, false≢true}
use mathlib.Core.Logic.{◌≢◌, inl, inr}
use mathlib.Core.Option.{Option, none, some}
use mathlib.Core.Path.{◌≡◌, refl, sym, ◌∙◌, subst, subst₂}
use native.Mathlib.Omega.{arith}
use text.Mathlib.Text.{◌==◌}
use text.Mathlib.TextEquality.{eq_iff}

abbrev pub Dict {ℓ} : Type ℓ → Type ℓ
Dict V = String → Option V

abbrev pub empty {ℓ} : {V : Type ℓ} → Dict V
empty k = none

-- m[k] = v
abbrev pub insert {ℓ} : {V : Type ℓ} → String → V → Dict V → Dict V
insert k v m j = if k == j then some v else m j

-- delete(m, k)
abbrev pub erase {ℓ} : {V : Type ℓ} → String → Dict V → Dict V
erase k m j = if k == j then none else m j

-- _, ok := m[k]
abbrev pub is_some {ℓ} : {V : Type ℓ} → Option V → Bool
is_some none = false
is_some (some v) = true

abbrev pub contains {ℓ} : {V : Type ℓ} → String → Dict V → Bool
contains k m = is_some (m k)

pub eq_self : (k : String) → (k == k) ≡ true
eq_self k = (eq_iff k k).1 refl

pub ne_false : (k j : String) → k ≢ j → (k == j) ≡ false
ne_false k j h = ground (arith, eq_iff k j)

pub distinct : (k j : String) → (k == j) ≡ false → k ≢ j
distinct k j h e = false≢true (sym h ∙ (eq_iff k j).1 e)

-- Every key of `m` is a key of `n`.
abbrev pub Within : {V W : Type 0} → Dict V → Dict W → Type 0
Within m n = (k : String) → contains k m ≡ true → contains k n ≡ true

pub contains_of_eq :
    {V : Type 0} (k : String) (m : Dict V) {v : V} → m k ≡ some v → contains k m ≡ true
contains_of_eq k m e = rw e refl

module _ {V W : Type 0} (m : Dict V) (n : Dict W) (h : Within m n) where
  pub Within-insert_both : (k : String) (v : V) (w : W) → Within (insert k v m) (insert k w n)
  Within-insert_both k v w j p = elim (Bool-cases (k == j)) [
    | inl e ↦ rw e refl
    | inr e ↦ rw e (h j (rw e at p))
  ]

  pub Within-insert_right : (k : String) (w : W) → Within m (insert k w n)
  Within-insert_right k w j p = elim (Bool-cases (k == j)) [
    | inl e ↦ rw e refl
    | inr e ↦ rw e (h j p)
  ]

  -- An entry at a key that is there already.
  pub Within-insert_left : (k : String) (v : V) → contains k n ≡ true → Within (insert k v m) n
  Within-insert_left k v known j p = elim (Bool-cases (k == j)) [
    | inl e ↦ subst (λ i. contains i n ≡ true) ((eq_iff k j).0 e) known
    | inr e ↦ h j (rw e at p)
  ]

  pub Within-erase_left : (k : String) → Within (erase k m) n
  Within-erase_left k j p = elim (Bool-cases (k == j)) [
    | inl e ↦ absurd (false≢true (rw e at p))
    | inr e ↦ h j (rw e at p)
  ]

  pub Within-erase_both : (k : String) → Within (erase k m) (erase k n)
  Within-erase_both k j p = elim (Bool-cases (k == j)) [
    | inl e ↦ absurd (false≢true (rw e at p))
    | inr e ↦ rw e (h j (rw e at p))
  ]

pub some_path : {V : Type 0} (v w : V) → some v ≡ some w → v ≡ w
some_path v w p = cc

module _ {V : Type 0} (P : String → V → Type 0) (m : Dict V) where
  -- A property of every entry, after a write of an entry that has it, and after a deletion.
  pub insert_entries :
      (k : String) (v : V)
      → P k v
      → ((j : String) (w : V) → m j ≡ some w → P j w)
      → (j : String) (w : V) → insert k v m j ≡ some w
      → P j w
  insert_entries k v new old j w p = elim (Bool-cases (k == j)) [
    | inl e ↦ subst₂ P ((eq_iff k j).0 e) (some_path v w (rw e at p)) new
    | inr e ↦ old j w (rw e at p)
  ]

  pub erase_entries :
      (k : String)
      → ((j : String) (w : V) → m j ≡ some w → P j w)
      → (j : String) (w : V) → erase k m j ≡ some w
      → P j w
  erase_entries k old j w p = elim (Bool-cases (k == j)) [
    | inl e ↦ cc (rw e at p)
    | inr e ↦ old j w (rw e at p)
  ]
