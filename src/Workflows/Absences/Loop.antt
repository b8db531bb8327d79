-- ===== src/Workflows/Absences/Loop.antt =====
-- Rules for the loop of `verify_snapshot_absences` of workflows.py.
use voucher_management_deskt.Workflows.Absences.{verify_all, Verification, verify_one}
use voucher_management_deskt.Prelude.{List, [], ◌∷◌, String, ◌≡◌, subst}
use voucher_management_deskt.Workflows.Remote.{continue, Reply, UniFi, Remote, answer, Call, fail}

abbrev pub Answers : {A : Type 0} → (A → Type 0) → Reply A → Type 0
Answers P (answer o) = P o
Answers P (fail e) = Unit

pub and_then :
    {A B : Type 0} (P : A → Type 0) (Q : B → Type 0) (r : Reply A) (f : A → Remote B)
    (log : List Call)
    → Answers P r
    → ((a : A) → P a → Answers Q (f a log).0)
    → Answers Q (continue r f log).0
and_then P Q (answer a) f log p h = h a p
and_then P Q (fail e) f log p h = tt

pub anything : {A : Type 0} (r : Reply A) → Answers (λ a. Unit {0}) r
anything (answer a) = tt
anything (fail e) = tt

pub both :
    {A : Type 0} (P Q : A → Type 0) (r : Reply A)
    → Answers P r
    → Answers Q r
    → Answers (λ a. P a × Q a) r
both P Q (answer a) p q = (p, q)
both P Q (fail e) p q = tt

-- A property that one candidate keeps is kept by the loop.
pub loop_rule :
    (unifi : UniFi) (P : Verification → Type 0)
    → ((o : Verification) (u : String) (log : List Call)
        → P o
        → Answers P (verify_one unifi o u log).0)
    → (us : List String) (o : Verification) (log : List Call) → P o
    → Answers P (verify_all unifi o us log).0
unfolding verify_all
loop_rule unifi P step [] o log h = h
loop_rule unifi P step (u ∷ us) o log h =
    and_then P P (verify_one unifi o u log).0 (λ o'. verify_all unifi o' us)
      (verify_one unifi o u log).1 (step o u log h)
      (λ o' p. loop_rule unifi P step us o' (verify_one unifi o u log).1 p)

pub from_answers :
    {A : Type 0} (P : A → Type 0) (r : Reply A) (a : A) → Answers P r → r ≡ answer a → P a
from_answers P r a h e = subst (Answers P) e h
