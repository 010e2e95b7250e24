-- ===== src/Emitter/Health/Over.antt =====
-- The worst of the statuses of a list of rows, as the loop of `collect_health` carries it.
use krateo_openstack_bluepri.Prelude.{
  ◌≤◌, ◌≡◌, refl, sym, ap, ◌∙◌, subst, arith, Bool-cases, ◌⊎◌, inl, inr, Option, none, some, List,
  [], ◌∷◌, ◌++◌, In, All, ltb,
}
use mathlib.Core.List.{append_assoc}
use krateo_openstack_bluepri.Emitter.Effects.{State, Status, HealthRow}
use krateo_openstack_bluepri.Emitter.Health.{rank, worse}

-- The status that the loop carries, over the rows that it collected.
abbrev pub over : Option Status → List HealthRow → Option Status
over worst [] = worst
over worst (r ∷ rs) = over (worse worst r.status) rs

pub over-append :
    (worst : Option Status) (xs ys : List HealthRow)
    → over worst (xs ++ ys) ≡ over (over worst xs) ys
over-append worst [] ys = refl
over-append worst (x ∷ xs) ys = over-append (worse worst x.status) xs ys

-- No row is worse than the status, and some row has it.
pub record IsWorst (status : Status) (rows : List HealthRow) : Type 0 where
  pub bounds : All (λ (r : HealthRow). rank r.status ≤ rank status) rows
  pub attained : (r : HealthRow) × In r rows × (r.status ≡ status)

-- What `over` says of a status it starts from.
over-some :
    (worst : Status) (rows : List HealthRow)
    → (final : Status) × (over (some worst) rows ≡ some final)
      × (rank worst ≤ rank final)
      × All (λ (r : HealthRow). rank r.status ≤ rank final) rows
      × ((final ≡ worst) ⊎ ((r : HealthRow) × In r rows × (r.status ≡ final)))
over-some worst [] = (worst, refl, omega arith, tt, inl refl)
over-some worst (r ∷ rs) = elim (Bool-cases (ltb (rank worst) (rank r.status))) [
  | inl raised ↦
      let (final, e, le, all, at) = over-some r.status rs in
      (
        final,
        rw raised e,
        ground arith,
        (le, all),
        elim at [ inl same ↦ inr (r, inl refl, sym same) | inr (x, m, eq) ↦ inr (x, inr m, eq) ],
      )
  | inr stays ↦
      let (final, e, le, all, at) = over-some worst rs in
      (
        final,
        rw stays e,
        le,
        (ground arith, all),
        elim at [ inl same ↦ inl same | inr (x, m, eq) ↦ inr (x, inr m, eq) ],
      )
]

over-none :
    (rows : List HealthRow) (final : Status) → over none rows ≡ some final → IsWorst final rows
over-none [] final e = cc
over-none (r ∷ rs) final e =
    let (top, found, le, all, at) = over-some r.status rs in
    let same : top ≡ final = cc in
    subst (λ (x : Status). IsWorst x (r ∷ rs)) same
      (record {
        bounds = (le, all);
        attained = elim at [
          | inl first ↦ (r, inl refl, sym first)
          | inr (x, m, eq) ↦ (x, inr m, eq)
        ];
      })

-- What a run adds: rows of components, the row of the service, and how that one stands to them.
abbrev pub Reported : State → State → Type 0
Reported s t =
    (rows : List HealthRow) × (last : HealthRow) × (t.health ≡ s.health ++ (rows ++ last ∷ []))
    × (last.component ≡ "_service")
    × IsWorst last.status rows

pub assemble :
    (s u v t : State) (new more : List HealthRow) (last : HealthRow) (seen : Option Status)
    → u.health ≡ s.health ++ new
    → v.health ≡ u.health ++ more
    → t.health ≡ v.health ++ last ∷ []
    → seen ≡ over none new
    → some last.status ≡ over seen more
    → last.component ≡ "_service"
    → Reported s t
assemble s u v t new more last seen a b c d e named = (
  new ++ more,
  last,
  c
      ∙ ap (λ (l : List HealthRow). l ++ last ∷ [])
          (b ∙ ap (λ (l : List HealthRow). l ++ more) a ∙ append_assoc s.health new more)
      ∙ append_assoc s.health (new ++ more) (last ∷ []),
  named,
  over-none (new ++ more) last.status
      (over-append none new more ∙ ap (λ (w : Option Status). over w more) (sym d) ∙ sym e),
)
