-- ===== src/Channel/Sharing.antt =====
-- An association that two channels share.
use cosemlib.Base.{ℕ, zero, suc, ◌≡◌, ◌≢◌, refl, ap, ◌∙◌, List, [], ◌∷◌, some, get_elem?, set}
use cosemlib.Association.{Association, StateCf}
use cosemlib.Channel.{with_id, Channel, Stack, disconnect, invalid, idle_at}

pub get_elem?-set_same :
    {A : Type 0} (xs : List A) (i : ℕ) (x : A) {y : A}
    → get_elem? xs i ≡ some y
    → get_elem? (set xs i x) i ≡ some x
get_elem?-set_same [] i x e = cc
get_elem?-set_same (z ∷ xs) zero x e = refl
get_elem?-set_same (z ∷ xs) (suc i) x e = get_elem?-set_same xs i x e

pub get_elem?-set_other :
    {A : Type 0} (xs : List A) (i j : ℕ) (x : A) → i ≢ j → get_elem? (set xs i x) j ≡ get_elem? xs j
get_elem?-set_other [] i j x h = refl
get_elem?-set_other (z ∷ xs) zero zero x h = absurd (h refl)
get_elem?-set_other (z ∷ xs) zero (suc j) x h = refl
get_elem?-set_other (z ∷ xs) (suc i) zero x h = refl
get_elem?-set_other (z ∷ xs) (suc i) (suc j) x h = get_elem?-set_other xs i j x (λ e. h (ap suc e))

-- Where two channels use the same association, the end of the connection on one of them makes that
-- association idle for the other one too, which keeps its id and its association.
disconnect_shared :
    (s : Stack) (i j n : ℕ) (c d : Channel) (a : Association)
    → i ≢ j
    → get_elem? s.channels i ≡ some c
    → get_elem? s.channels j ≡ some d
    → c.asso ≡ some n
    → d.asso ≡ some n
    → get_elem? s.assos n ≡ some a
    → (get_elem? (disconnect i s).channels j ≡ some d)
      × (get_elem? (disconnect i s).assos n ≡ some (record a { state_cf = StateCf.idle }))
unfolding disconnect
disconnect_shared s i j n c d a apart at_i at_j uses_c uses_d at_n =
    rw (at_i, disconnect, uses_c, idle_at, at_n)
      (
        get_elem?-set_other s.channels i j (record (with_id invalid c) { asso = some n }) apart
            ∙ at_j,
        get_elem?-set_same s.assos n (record a { state_cf = StateCf.idle }) at_n,
      )
