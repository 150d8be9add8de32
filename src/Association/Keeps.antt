-- ===== src/Association/Keeps.antt =====
-- Which functions keep the state of the association: the predicate, and its rules.
pub mod Decoders
pub mod Encoders
use cosemlib.Base.{
  ℕ, ◌≡◌, refl, ◌+◌, ◌-◌, ◌∙◌, Bool, true, false, List, [], ◌∷◌, Option, none, some, arith, Exec,
  ret, fault, M, pure, ◌>>=◌, ◌>>◌, get, ◌&&>◌, ◌==◌, ◌&&◌, bind_exec, bind_exec-ret, sym, ap,
  Bool-cases, if◌then◌else◌, Option-cases, inl, inr, ◌≢◌, ◌⊎◌,
}
use mathlib.Core.Path.{subst}
use cosemlib.Association.{
  Association, Session, Hal, StateCf, Codec, decode_ber, on_array, aarq, aare,
}
use cosemlib.Association.Decoders.{
  proto_version, app_context, oid, sender_requirements, auth_value, client_challenge,
  server_challenge, app_title, client_title, server_title, result, result_src_diag, requirements,
  skip_field, Target,
}
use cosemlib.Association.UserInfo.{
  user_info, conformance_block, vaa_name, initiate_body, initiate_apdu, read_if,
}
use cosemlib.Array
use cosemlib.Array.{Array, unread}
use cosemlib.Axdr
use cosemlib.Association.Encoders.{
  oid_context, oid_mechanism, resp_system_title, responder_auth_value, fill_random,
}
use cosemlib.Association.Encode.{
  is_skip, is_sec, is_lowest, aare_encoders, encode_chain, encoder, reset_writer,
}
use cosemlib.Association.Server.{
  init, grant, check_password, is_granted, release, establish, server_execute,
}
use cosemlib.Base.Words.{low8, u32_mod}
use cosemlib.Association.Decode.{codec, aarq_decoders, decode_chain, decoder}

-- A run that returns ends in the state.
abbrev pub EndsIn : {A : Type 0} → StateCf → Exec Session A → Type 0
EndsIn st (ret x s) = s.asso.state_cf ≡ st
EndsIn st fault = Unit {0}

abbrev pub final_state : {A : Type 0} → Exec Session A → StateCf → StateCf
final_state (ret x s) st = s.asso.state_cf
final_state fault st = st

pub record Keeps {A : Type 0} (m : M Session A) : Type 0 where
  pub run : (s : Session) → EndsIn s.asso.state_cf (m s)

pub EndsIn-bind :
    {A B : Type 0} (st : StateCf) (r : Exec Session A) (f : A → M Session B)
    → EndsIn st r
    → ((a : A) → Keeps (f a))
    → EndsIn st (bind_exec r f)
EndsIn-bind st (ret a s) f h k = subst (λ t. EndsIn t (f a s)) h ((k a).run s)
EndsIn-bind st fault f h k = tt

pub Keeps->>= :
    {A B : Type 0} {m : M Session A} {f : A → M Session B}
    → Keeps m
    → ((a : A) → Keeps (f a))
    → Keeps (m >>= f)
Keeps->>= {m = m} {f} h k = record { run = λ s. EndsIn-bind s.asso.state_cf (m s) f (h.run s) k }

pub Keeps-if :
    {A : Type 0} (b : Bool) {m k : M Session A} → Keeps m → Keeps k → Keeps (if b then m else k)
Keeps-if true h g = h
Keeps-if false h g = g

pub Keeps-pure : {A : Type 0} (x : A) → Keeps (pure x)
Keeps-pure x = record { run = λ s. refl }

pub Keeps-&&> :
    {A : Type 0} {m : M Session (Option A)} {f : A → M Session Bool}
    → Keeps m
    → ((x : A) → Keeps (f x))
    → Keeps (m &&> f)
Keeps-&&> {A} {m} {f} h k = Keeps->>= h (go)
  where
    go :
        (o : Option A)
        → Keeps (elim o as (λ x. M Session Bool) [ none ↦ pure false | some x ↦ f x ])
    go none = Keeps-pure false
    go (some x) = k x

pub on_array-run :
    {A : Type 0} (s : Session) (r : Exec Array A)
    → EndsIn s.asso.state_cf (elim r as (λ _. Exec Session A) [
      | ret x a ↦ ret x (record s { array = a })
      | fault ↦ fault
    ])
on_array-run s (ret x a) = refl
on_array-run s fault = tt

pub on_array-Keeps : {A : Type 0} (m : M Array A) → Keeps (on_array m)
on_array-Keeps m = record { run = λ s. ground arith }

-- Every codec of a chain keeps the state.
abbrev pub AllKeep : List Codec → Type 0
AllKeep [] = Unit {0}
AllKeep (c ∷ cs) = Keeps c.run × AllKeep cs

pub Keeps-ret :
    {A : Type 0} {m : M Session A}
    → Keeps m
    → (s : Session) {x : A} {s' : Session} → m s ≡ ret x s'
    → s'.asso.state_cf ≡ s.asso.state_cf
Keeps-ret h s e = subst (EndsIn s.asso.state_cf) e (h.run s)
