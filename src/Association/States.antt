-- ===== src/Association/States.antt =====
-- The steps of the server's association, and its runs over a sequence of packets.
use cosemlib.Base.{
  ℕ, ◌≡◌, refl, ◌∙◌, Bool, List, [], ◌∷◌, arith, ret, M, pure, ◌>>=◌, get, bind_exec, bind_exec-ret,
  sym, ap, Bool-cases, if◌then◌else◌, inl, inr, ◌⊎◌,
}
use mathlib.Core.Path.{subst}
use cosemlib.Association.{Session, Hal, StateCf, aarq, aare}
use cosemlib.Array.{Array}
use cosemlib.Association.Encode.{encoder}
use cosemlib.Association.Server.{
  init, grant, check_password, is_granted, release, establish, server_execute,
}
use cosemlib.Association.Decode.{decoder}
use cosemlib.Association.Keeps.{final_state, Keeps-ret}
use cosemlib.Association.Keeps.Decoders.{decoder-Keeps}
use cosemlib.Association.Keeps.Encoders.{encoder-Keeps}

-- The steps that `csm_asso_server_execute` can take.
pub data Step : StateCf → StateCf → Type 0 where
  stay : (st : StateCf) → Step st st
  associate : Step StateCf.idle StateCf.associated
  challenge : Step StateCf.idle StateCf.association_pending
  disconnect : Step StateCf.associated StateCf.idle

-- Where an idle association may be after a request to associate.
abbrev Answered : StateCf → Type 0
Answered st = (st ≡ StateCf.idle) ⊎ (st ≡ StateCf.associated) ⊎ (st ≡ StateCf.association_pending)

is_granted-Answered :
    (hal : Hal) (s : Session) {b : Bool} {s' : Session}
    → s.asso.state_cf ≡ StateCf.idle
    → is_granted hal s ≡ ret b s'
    → Answered s'.asso.state_cf
unfolding is_granted grant check_password
is_granted-Answered hal s idle e = ground arith

establish-Answered :
    (hal : Hal) (s : Session) {n : ℕ} {s' : Session}
    → s.asso.state_cf ≡ StateCf.idle
    → establish hal s ≡ ret n s'
    → Answered s'.asso.state_cf
unfolding establish
establish-Answered hal s {n} {s'} idle e =
    let (decoded, s1, run1, e1) = bind_exec-ret (decoder hal aarq s) _ e in
    let idle1 : s1.asso.state_cf ≡ StateCf.idle = Keeps-ret (decoder-Keeps hal) s run1 ∙ idle in
    elim (Bool-cases decoded) [
      | inl valid ↦
          let e2 : bind_exec (is_granted hal s1) (λ _. encoder hal aare >>= λ encoded.
          get >>= λ s. pure (if encoded then s.array.wr_index else 0))
              ≡ ret n s' =
            rw valid at e1 in
          let (granted, s2, run2, e3) = bind_exec-ret (is_granted hal s1) _ e2 in
          let (encoded, s3, run3, e4) = bind_exec-ret (encoder hal aare s2) _ e3 in
          let kept : s'.asso.state_cf ≡ s2.asso.state_cf =
            ap (λ r. final_state r s2.asso.state_cf) (sym e4)
            ∙ Keeps-ret (encoder-Keeps hal) s2 run3 in
          subst Answered (sym kept) (is_granted-Answered hal s1 idle1 run2)
      | inr failed ↦
          let e2 : ret 0 s1 ≡ ret n s' = rw failed at e1 in
          inl (ap (λ r. final_state r StateCf.idle) (sym e2) ∙ idle1)
    ]

release-states :
    (s : Session) {n : ℕ} {s' : Session}
    → s.asso.state_cf ≡ StateCf.associated
    → release s ≡ ret n s'
    → (s'.asso.state_cf ≡ StateCf.associated) ⊎ (s'.asso.state_cf ≡ StateCf.idle)
unfolding release
release-states s h e = ground arith

-- Each run of `csm_asso_server_execute` that returns takes one of the steps: an idle association is
-- answered, an associated one may be released, and any other stays as it is.
pub server_execute-Step :
    (hal : Hal) (s : Session) {n : ℕ} {s' : Session}
    → server_execute hal s ≡ ret n s'
    → Step s.asso.state_cf s'.asso.state_cf
unfolding server_execute
server_execute-Step hal s {n} {s'} e = go s.asso.state_cf refl
  where
    go : (st : StateCf) → s.asso.state_cf ≡ st → Step s.asso.state_cf s'.asso.state_cf
    go StateCf.idle h =
        let run : establish hal s ≡ ret n s' = ground arith in
        rw h (elim (establish-Answered hal s h run) [
          | inl k ↦ rw k (stay StateCf.idle)
          | inr (inl k) ↦ rw k associate
          | inr (inr k) ↦ rw k challenge
        ])
    go StateCf.associated h =
        let run : release s ≡ ret n s' = ground arith in
        rw h (elim (release-states s h run) [
          | inl k ↦ rw k (stay StateCf.associated)
          | inr k ↦ rw k disconnect
        ])
    go _ h =
        let same : s'.asso.state_cf ≡ s.asso.state_cf = ground arith in
        rw same (stay s.asso.state_cf)

-- The server answers one packet after the other.
unfoldable pub serve : Hal → List Array → M Session (Unit {0})
unfolding server_execute
serve hal [] s = ret tt s
serve hal (p ∷ ps) s = (server_execute hal >>= λ _. serve hal ps) (record s { array = p })

-- A step never leaves the three states, and never leaves the pending one.
Step-Answered : {st st' : StateCf} → Step st st' → Answered st → Answered st'
Step-Answered (stay st) h = h
Step-Answered associate h = inr (inl refl)
Step-Answered challenge h = inr (inr refl)
Step-Answered disconnect h = inl refl

serve-Answered :
    (hal : Hal) (ps : List Array) (s : Session) {s' : Session}
    → Answered s.asso.state_cf
    → serve hal ps s ≡ ret tt s'
    → Answered s'.asso.state_cf
unfolding serve
serve-Answered hal [] s {s'} h e = subst Answered (ap (λ r. final_state r StateCf.idle) e) h
serve-Answered hal (p ∷ ps) s {s'} h e =
    let start = record s { array = p } in
    let (n, s1, run, e1) = bind_exec-ret (server_execute hal start) (λ _. serve hal ps) e in
    serve-Answered hal ps s1 (Step-Answered (server_execute-Step hal start run) h) e1

-- An association that `csm_asso_init` has set up is idle, associated or pending after any sequence of
-- packets that returns, whatever it was before.
pub init-serve-Answered :
    (hal : Hal) (ps : List Array) (s : Session) {s' : Session}
    → serve hal ps (record s { asso = init s.asso }) ≡ ret tt s'
    → (s'.asso.state_cf ≡ StateCf.idle)
      ⊎ (s'.asso.state_cf ≡ StateCf.associated)
      ⊎ (s'.asso.state_cf ≡ StateCf.association_pending)
unfolding init
init-serve-Answered hal ps s e =
    serve-Answered hal ps (record s { asso = init s.asso }) (inl refl) e

pub Step-pending : {st st' : StateCf} → Step st st' → st ≡ StateCf.association_pending → st' ≡ st
Step-pending (stay st) h = refl
Step-pending associate h = cc
Step-pending challenge h = cc
Step-pending disconnect h = cc

-- An association that waits for the client's proof stays so under any sequence of packets that
-- returns: `csm_asso_server_execute` neither completes, releases nor aborts it.
pub serve-pending :
    (hal : Hal) (ps : List Array) (s : Session) {s' : Session}
    → s.asso.state_cf ≡ StateCf.association_pending
    → serve hal ps s ≡ ret tt s'
    → s'.asso.state_cf ≡ StateCf.association_pending
unfolding serve
serve-pending hal [] s {s'} h e = ap (λ r. final_state r StateCf.idle) (sym e) ∙ h
serve-pending hal (p ∷ ps) s {s'} h e =
    let start = record s { array = p } in
    let (n, s1, run, e1) = bind_exec-ret (server_execute hal start) (λ _. serve hal ps) e in
    serve-pending hal ps s1 (Step-pending (server_execute-Step hal start run) h ∙ h) e1
