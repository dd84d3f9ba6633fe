-- ===== src/Repo/Tasks/Life.antt =====
-- The life of one task: what the calls of task_postgres.go can make of its row.
pub mod Calls
pub mod History
use mathlib.Core.Path.{subst}
use mathlib.Core.Option.{some-injective}
use follower_bmad.Base.{
  ℕ, ◌≤◌, ◌≡◌, ◌≢◌, refl, sym, ◌∙◌, ◌⊎◌, inl, inr, true, some, List, arith, ==_iff, ◌==◌,
  Bool-cases,
}
use follower_bmad.Domain.Ids.{Uuid}
use follower_bmad.Domain.Status.{TaskStatus, can_transition_to}
use follower_bmad.Domain.Admin.{AdminAction}
use follower_bmad.Domain.Admin.Laws.{Admin}
use follower_bmad.Repo.Tasks.{TaskRow, find_row}

-- Paths of the worker's and the operator's transitions.
pub data Life : TaskStatus → TaskStatus → Type 0 where
  stays : {s : TaskStatus} → Life s s
  by_worker : {s t u : TaskStatus} → Life s t → can_transition_to t u ≡ true → Life s u
  by_operator : {s t u : TaskStatus} {a : AdminAction} → Life s t → Admin t a u → Life s u

Life-trans : {s t u : TaskStatus} → Life s t → Life t u → Life s u
Life-trans p stays = p
Life-trans p (by_worker q h) = by_worker (Life-trans p q) h
Life-trans p (by_operator q a) = by_operator (Life-trans p q) a

-- `q` is a later state of the row `r`.
pub record Follows (r q : TaskRow) : Type 0 where
  pub same_id : q.id ≡ r.id
  pub same_source : q.source_task_id ≡ r.source_task_id
  pub same_account : q.account_id ≡ r.account_id
  pub same_target : q.target_profile ≡ r.target_profile
  pub same_creation : q.created_at ≡ r.created_at
  pub counted : r.attempt ≤ q.attempt
  pub life : Life r.status q.status

pub Follows-refl : (r : TaskRow) → Follows r r
Follows-refl r = record {
  same_id = refl;
  same_source = refl;
  same_account = refl;
  same_target = refl;
  same_creation = refl;
  counted = omega arith;
  life = stays;
}

Follows-trans : (p q r : TaskRow) → Follows p q → Follows q r → Follows p r
Follows-trans p q r f g = record {
  same_id = g.same_id ∙ f.same_id;
  same_source = g.same_source ∙ f.same_source;
  same_account = g.same_account ∙ f.same_account;
  same_target = g.same_target ∙ f.same_target;
  same_creation = g.same_creation ∙ f.same_creation;
  counted = omega (arith, f.counted, g.counted);
  life = Life-trans f.life g.life;
}

-- Every row of the first table has a later state in the second.
abbrev pub Keeps : List TaskRow → List TaskRow → Type 0
Keeps rows rows' =
    (id : Uuid) (r : TaskRow)
    → find_row id rows ≡ some r
    → (q : TaskRow) × (find_row id rows' ≡ some q) × Follows r q

pub Keeps-refl : (rows : List TaskRow) → Keeps rows rows
Keeps-refl rows id r found = (r, found, Follows-refl r)

pub Keeps-trans :
    (rows rows' rows'' : List TaskRow) → Keeps rows rows' → Keeps rows' rows'' → Keeps rows rows''
Keeps-trans rows rows' rows'' h k id r found =
    let x = h id r found in let y = k id x.0 x.1 in (y.0, y.1, Follows-trans r x.0 y.0 x.2 y.2)

-- A write of the one row that `id` finds.
pub written-Keeps :
    (id : Uuid) (r q : TaskRow) (rows rows' : List TaskRow)
    → find_row id rows ≡ some r
    → find_row id rows' ≡ some q
    → ((j : Uuid) → j ≢ id → find_row j rows' ≡ find_row j rows)
    → Follows r q
    → Keeps rows rows'
written-Keeps id r q rows rows' found found' others f j x e = elim (Bool-cases (id == j)) [
  | inl hit ↦
      let same : id ≡ j = (==_iff id j).0 hit in
      let one : r ≡ x =
        some-injective r x (sym (subst (λ k. find_row k rows ≡ some r) same found) ∙ e) in
      (q, subst (λ k. find_row k rows' ≡ some q) same found', subst (λ y. Follows y q) one f)
  | inr miss ↦ (x, others j (λ e. ground arith) ∙ e, Follows-refl x)
]
