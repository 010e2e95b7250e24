-- ===== src/Preflight/Pairing/Window.antt =====
-- The lines that `pair_version` of hack/preflight-refs.py looks at.
use krateo_openstack_bluepri.Prelude.{
  ℕ, zero, suc, ◌+◌, ◌-◌, ◌≤◌, String, true, Bool-cases, ◌≡◌, ◌↔◌, refl, sym, ◌∙◌, arith, inl, inr,
  Option, none, some, Option-cases, List, [], ◌∷◌, All, All-each, leb, ap, In, some_inj, none_some,
}
use krateo_openstack_bluepri.Preflight.Pairing.{
  Patterns, Offset, ahead, behind, nth, line_at, first_near, near, unskipped, pair_version,
}

-- What is looked for does not stand at an offset.
abbrev Misses : (String → Option String) → List String → ℕ → Offset → Type 0
Misses look lines idx off = (l : String) → line_at lines idx off ≡ some l → look l ≡ none

first_near-none :
    (look : String → Option String) (lines : List String) (idx : ℕ) (offs : List Offset)
    → (first_near look lines idx offs ≡ none) ↔ All (Misses look lines idx) offs
unfolding first_near
first_near-none look lines idx [] = (λ h. tt, λ h. refl)
first_near-none look lines idx (off ∷ offs) = elim (Option-cases (line_at lines idx off)) [
  | inl outside ↦
      let rest = first_near-none look lines idx offs in
      rw (outside, first_near) ((λ h. ((λ l e. cc), rest.0 h), λ h. rest.1 h.1))
  | inr (l, at) ↦ elim (Option-cases (look l)) [
    | inl misses ↦
        let rest = first_near-none look lines idx offs in
        rw (at, misses, first_near)
          ((λ h. ((λ m e. rw (sym (some_inj e)) misses), rest.0 h), λ h. rest.1 h.1))
    | inr (x, found) ↦
        rw (at, found, first_near) ((λ h. cc), λ h. none_some (sym (h.0 l refl) ∙ found))
  ]
]

-- A line of the window, by its number
abbrev pub IsNear : ℕ → ℕ → Type 0
IsNear idx j = (j ≤ idx + 3) × (idx ≤ j + 3)

ahead_near : (d : ℕ) → d ≤ 3 → In (ahead d) near
ahead_near zero h = inl refl
ahead_near (suc zero) h = inr (inl refl)
ahead_near (suc (suc zero)) h = inr (inr (inl refl))
ahead_near (suc (suc (suc zero))) h = inr (inr (inr (inr (inr (inl refl)))))
ahead_near (suc (suc (suc (suc d)))) h = absurd (omega (arith, h))

behind_near : (d : ℕ) → 1 ≤ d → d ≤ 3 → In (behind d) near
behind_near zero l h = absurd (omega (arith, l))
behind_near (suc zero) l h = inr (inr (inr (inl refl)))
behind_near (suc (suc zero)) l h = inr (inr (inr (inr (inl refl))))
behind_near (suc (suc (suc zero))) l h = inr (inr (inr (inr (inr (inr (inl refl))))))
behind_near (suc (suc (suc (suc d)))) l h = absurd (omega (arith, h))

offset_of :
    (lines : List String) (idx j : ℕ)
    → IsNear idx j
    → (off : Offset) × (In off near × (line_at lines idx off ≡ nth lines j))
unfolding line_at
offset_of lines idx j (above, below) = elim (Bool-cases (leb idx j)) [
  | inl at ↦
      let d_le : j - idx ≤ 3 = ground arith in
      let same : idx + (j - idx) ≡ j = ground arith in
      (ahead (j - idx), (ahead_near (j - idx) d_le, ap (nth lines) same))
  | inr past ↦
      let d_le : idx - j ≤ 3 = ground arith in
      let one_le : 1 ≤ idx - j = ground arith in
      let inside : leb (idx - j) idx ≡ true = ground arith in
      let same : idx - (idx - j) ≡ j = ground arith in
      (behind (idx - j), (behind_near (idx - j) one_le d_le, rw inside (ap (nth lines) same)))
]

module _ (P : String → Type 0) (lines : List String) (idx : ℕ) where
  -- Each line of the window has it.
  abbrev Throughout : Type 0
  Throughout = (j : ℕ) (l : String) → IsNear idx j → nth lines j ≡ some l → P l

  abbrev HasAt : Offset → Type 0
  HasAt off = (l : String) → line_at lines idx off ≡ some l → P l

  has_ahead : Throughout → (k : ℕ) → k ≤ 3 → HasAt (ahead k)
  unfolding line_at
  has_ahead h k k_le l e = h (idx + k) l (omega (arith, k_le), omega (arith, k_le)) e

  has_behind : Throughout → (k : ℕ) → k ≤ 3 → HasAt (behind k)
  unfolding line_at
  has_behind h k k_le l e = elim (Bool-cases (leb k idx)) [
    | inl inside ↦ h (idx - k) l (ground arith, ground arith) (rw (inside, line_at) at e)
    | inr outside ↦ none_some (rw (outside, line_at) at e)
  ]

  throughout : Throughout ↔ All HasAt near
  throughout = (
    λ h. (
      has_ahead h 0 (omega arith),
      (
        has_ahead h 1 (omega arith),
        (
          has_ahead h 2 (omega arith),
          (
            has_behind h 1 (omega arith),
            (
              has_behind h 2 (omega arith),
              (has_ahead h 3 (omega arith), (has_behind h 3 (omega arith), tt)),
            ),
          ),
        ),
      ),
    ),
    λ h j l close e.
        let (off, (m, same)) = offset_of lines idx j close in
        (All-each HasAt near).0 h off m l (same ∙ e),
  )

-- `pair_version` finds no version exactly when no line of the file within three lines of the reference
-- has a version that counts.
pub pair_version-none :
    (pat : Patterns) (lines : List String) (idx : ℕ)
    → (pair_version pat lines idx ≡ none) ↔ (
        (j : ℕ) (l : String)
        → IsNear idx j
        → nth lines j ≡ some l
        → unskipped pat pat.version_near l ≡ none)
unfolding pair_version
pair_version-none pat lines idx =
    let look = unskipped pat pat.version_near in
    let offsets = first_near-none look lines idx near in
    let lines_near = throughout (λ l. look l ≡ none) lines idx in
    (λ h. lines_near.1 (offsets.0 h), λ h. offsets.1 (lines_near.0 h))
