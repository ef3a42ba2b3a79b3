-- ===== src/Prelude/Window.antt =====
-- The stretch of a circular array that starts at a place and goes round at the capacity.
use native.Mathlib.Nat.{
  zero-add, mod_self, mod-lt, add-mod_right, add-zero, sub-zero, mod-add-mod, mod-eq_of_lt,
  mod-eq-sub-mod,
}
use Prim.Native.Nat.{ℕ, zero, suc, ◌+◌, ◌-◌, ◌%◌, ◌≤◌, ◌<◌}
use mathlib.Core.Path.{◌≡◌, refl, sym, ap, ap₂, ◌∙◌}
use mathlib.Core.Logic.{◌≢◌}
use mathlib.Core.List.{List, [], ◌∷◌, ◌++◌}
use native.Mathlib.Omega.{arith}
use native.Mathlib.Decide.{dec_lt}
use aiot_edge_gateway.Prelude.Lists.{length, get_or, set, drop, get_or-set_self, get_or-set_ne}

step-mod : (h k cap : ℕ) → h % cap ≡ k % cap → (h + 1) % cap ≡ (k + 1) % cap
step-mod h k cap e =
    sym (mod-add-mod h cap 1) ∙ (ap (λ (i : ℕ). (i + 1) % cap) e ∙ mod-add-mod k cap 1)

module _ {ℓ} {A : Type ℓ} (d : A) (buf : List A) (cap : ℕ) where
  -- The `n` items from place `h` on.
  abbrev pub window : ℕ → ℕ → List A
  window h zero = []
  window h (suc n) = get_or buf (h % cap) d ∷ window (h + 1) n

  pub length-window : (h n : ℕ) → length (window h n) ≡ n
  length-window h zero = refl
  length-window h (suc n) = ap suc (length-window (h + 1) n)

  -- Only the place modulo the capacity counts.
  pub window-mod : (h k n : ℕ) → h % cap ≡ k % cap → window h n ≡ window k n
  window-mod h k zero e = refl
  window-mod h k (suc n) e =
      ap₂ ◌∷◌ (ap (λ i. get_or buf i d) e) (window-mod (h + 1) (k + 1) n (step-mod h k cap e))

  pub drop-window : (m h n : ℕ) → m ≤ n → drop m (window h n) ≡ window (h + m) (n - m)
  drop-window zero h n p = rw (add-zero, sub-zero)
  drop-window (suc m) h zero p = absurd (omega arith)
  drop-window (suc m) h (suc n) p =
      drop-window m (h + 1) n (omega arith) ∙ ap₂ window (omega arith) (omega arith)

-- One more item of the window is the one at its end.
pub window-suc {ℓ} :
    {A : Type ℓ} (d : A) (buf : List A) (cap h n : ℕ)
    → window d buf cap h (suc n) ≡ window d buf cap h n ++ (get_or buf ((h + n) % cap) d ∷ [])
window-suc d buf cap h zero = rw add-zero
window-suc d buf cap h (suc n) =
    ap (λ w. get_or buf (h % cap) d ∷ w)
      (window-suc d buf cap (h + 1) n
        ∙ ap (λ i. window d buf cap (h + 1) n ++ (get_or buf (i % cap) d ∷ [])) (omega arith))

-- Fewer than `cap` steps do not come back to the start.
pub add-mod-ne : (cap a k : ℕ) → suc k < cap → a % cap ≢ (a + suc k) % cap
add-mod-ne cap a k h = rw (← mod-add-mod a cap (suc k)) (short (a % cap) (mod-lt a (omega arith)))
  where
    short : (b : ℕ) → b < cap → b ≢ (b + suc k) % cap
    short b hb = elim (dec_lt (b + suc k) cap) [
      | yes p ↦ omega (arith, mod-eq_of_lt p)
      | no p ↦ omega (
        arith,
        mod-eq-sub-mod {n = b + suc k} {m = cap} (omega arith),
        mod-eq_of_lt {n = b + suc k - cap} {m = cap} (omega arith),
      )
    ]

-- Writing just behind a window extends it.
pub window-set {ℓ} :
    {A : Type ℓ} (d : A) (buf : List A) (x : A) (cap h n i : ℕ)
    → cap ≤ length buf
    → n < cap
    → i ≡ (h + n) % cap
    → window d (set buf i x) cap h (suc n) ≡ window d buf cap h n ++ (x ∷ [])
window-set d buf x cap h zero i hs hn e =
    rw (e, add-zero, get_or-set_self buf (h % cap) x d (omega (arith, mod-lt h {m = cap})))
window-set d buf x cap h (suc n) i hs hn e =
    ap₂ ◌∷◌ (get_or-set_ne buf i (h % cap) x d (λ q. add-mod-ne cap h n hn (sym q ∙ e)))
      (window-set d buf x cap (h + 1) n i hs (omega arith) (e ∙ ap (λ k. k % cap) (omega arith)))

-- Writing behind a window leaves it alone, unless it is the write that comes round to it.
pub window-set_behind {ℓ} :
    {A : Type ℓ} (d : A) (buf : List A) (x : A) (cap h n k i : ℕ)
    → n + k < cap
    → i ≡ (h + (n + k)) % cap
    → window d (set buf i x) cap h n ≡ window d buf cap h n
window-set_behind d buf x cap h zero k i hn e = refl
window-set_behind d buf x cap h (suc n) k i hn e =
    ap₂ ◌∷◌
      (get_or-set_ne buf i (h % cap) x d (λ q.
        add-mod-ne cap h (n + k) (omega arith) (sym q ∙ (e ∙ ap (λ j. j % cap) (omega arith)))))
      (window-set_behind d buf x cap (h + 1) n k i (omega arith)
        (e ∙ ap (λ j. j % cap) (omega arith)))

-- How far it is from place `h` up to place `t`, going round at `cap`.
abbrev pub distance : ℕ → ℕ → ℕ → ℕ
distance cap h t = (t + cap - h) % cap

module _ (cap h t : ℕ) (hh : h < cap) where
  -- That many steps from `h` on lead to `t`, and no other number of steps below `cap` does.
  pub distance_unique : (k : ℕ) → k < cap → (h + k) % cap ≡ t → distance cap h t ≡ k
  distance_unique k hk e = elim (dec_lt (h + k) cap) [
    | yes p ↦ ap (λ i. i % cap) (straight p) ∙ (add-mod_right k cap ∙ mod-eq_of_lt hk)
    | no p ↦ ap (λ i. i % cap) (lap (omega arith)) ∙ mod-eq_of_lt hk
  ]
    where
      straight : h + k < cap → t + cap - h ≡ k + cap
      straight p = omega (arith, mod-eq_of_lt p)

      lap : cap ≤ h + k → t + cap - h ≡ k
      lap p = omega (
        arith,
        mod-eq-sub-mod {n = h + k} {m = cap} p,
        mod-eq_of_lt {n = h + k - cap} {m = cap} (omega arith),
      )

  pub add-distance : t < cap → (h + distance cap h t) % cap ≡ t
  add-distance ht = elim (dec_lt t h) [
    | yes p ↦ rw (mod-eq_of_lt (wrapped p)) (ap (λ i. i % cap) (around p) ∙ back)
    | no p ↦
        rw (drop_lap (omega arith)) (ap (λ i. i % cap) (direct (omega arith)) ∙ mod-eq_of_lt ht)
  ]
    where
      wrapped : t < h → t + cap - h < cap
      wrapped p = omega arith

      around : t < h → h + (t + cap - h) ≡ t + cap
      around p = omega arith

      back : (t + cap) % cap ≡ t
      back = add-mod_right t cap ∙ mod-eq_of_lt ht

      direct : h ≤ t → h + (t - h) ≡ t
      direct p = omega arith

      drop_lap : h ≤ t → (t + cap - h) % cap ≡ t - h
      drop_lap p =
          let e : t + cap - h ≡ t - h + cap = omega arith in
          rw e (add-mod_right (t - h) cap ∙ mod-eq_of_lt (omega arith))

pub distance-lt : (cap h t : ℕ) → 0 < cap → distance cap h t < cap
distance-lt cap h t hc = mod-lt (t + cap - h) hc

pub distance_self : (cap : ℕ) → distance cap 0 0 ≡ 0
distance_self cap = simp (zero-add, sub-zero) (mod_self cap)
