-- ===== src/Channel/Closed.antt =====
-- What a packet can do to the associations.
use cosemlib.Base.{
  ℕ, zero, suc, ◌≡◌, ◌≢◌, refl, ap, ◌∙◌, sym, Bool, true, false, List, [], ◌∷◌, Option, none, some,
  arith, if◌then◌else◌, ◌==◌, get_elem?, set, Exec, ret, fault, M, Bool-cases, inl, inr,
  bind_exec-ret, ◌>>=◌,
}
use mathlib.Core.Path.{subst}
use cosemlib.Array
use cosemlib.Array.{Array}
use cosemlib.Association.{Association, Config, Hal, Session, StateCf}
use cosemlib.Association.Server.{server_execute}
use cosemlib.Association.States.{Step, Step-pending, stay, server_execute-Step}
use cosemlib.Services.{Request, Exchange}
use cosemlib.Services.Server.{App, server_services_execute, hls_execute}
use cosemlib.Channel.{Channel}
use cosemlib.Channel.Sharing.{get_elem?-set_same, get_elem?-set_other}
use cosemlib.Channel.Execute.{
  Net, find_asso, is_asso_tag, run_asso, run_services, other_packet, dispatch, configured, linked,
  on_asso, on_config, on_channel, execute,
}

-- Each association of the first list has taken a step, or none, in the second one.
abbrev pub Moves : List Association → List Association → Type 0
Moves xs ys =
    (j : ℕ) (a : Association)
    → get_elem? xs j ≡ some a
    → (b : Association) × (get_elem? ys j ≡ some b) × Step a.state_cf b.state_cf

Moves-refl : (xs : List Association) → Moves xs xs
Moves-refl xs j a e = (a, e, stay a.state_cf)

set-set : {A : Type 0} (xs : List A) (i : ℕ) (x y : A) → set (set xs i x) i y ≡ set xs i y
set-set [] i x y = refl
set-set (z ∷ xs) zero x y = refl
set-set (z ∷ xs) (suc i) x y = ap (λ t. z ∷ t) (set-set xs i x y)

value_or : Association → Option Association → Association
value_or d none = d
value_or d (some a) = a

some-injective : {a c : Association} → some a ≡ some c → a ≡ c
unfolding value_or
some-injective {a} e = ap (value_or a) e

Moves-set :
    (xs : List Association) (i : ℕ) (a b : Association)
    → get_elem? xs i ≡ some a
    → Step a.state_cf b.state_cf
    → Moves xs (set xs i b)
Moves-set xs i a b at_i step j c at_j = elim (Bool-cases (i == j)) [
  | inl e ↦
      let same : i ≡ j = ground arith in
      let equal : a ≡ c = some-injective (sym at_i ∙ ap (get_elem? xs) same ∙ at_j) in
      (
        b,
        ap (get_elem? (set xs i b)) (sym same) ∙ get_elem?-set_same xs i b at_i,
        subst (λ d. Step d.state_cf b.state_cf) equal step,
      )
  | inr e ↦
      let apart : i ≢ j = ground arith in
      (c, get_elem?-set_other xs i j b apart ∙ at_j, stay c.state_cf)
]

abbrev assos_at : ℕ → Exec Net (Unit {0}) → Option Association
assos_at j (ret x n) = get_elem? n.stack.assos j
assos_at j fault = none

-- A run that returns has moved the associations.
abbrev MovesTo : List Association → Exec Net ℕ → Type 0
MovesTo xs (ret r n) = Moves xs n.stack.assos
MovesTo xs fault = Unit {0}

module _ (hal : Hal) (app : App) (channel i : ℕ) where
  run_asso-MovesTo :
      (a : Association) (n : Net) (xs : List Association)
      → ((b : Association) → Step a.state_cf b.state_cf → Moves xs (set n.stack.assos i b))
      → MovesTo xs (run_asso hal app channel i a n)
  unfolding run_asso
  run_asso-MovesTo a n xs h = go (server_execute hal start) refl
    where
      start : Session
      start = record { asso = a; ber = n.ber; array = n.packet; drawn = n.drawn }

      go :
          (r : Exec Session ℕ)
          → server_execute hal start ≡ r
          → MovesTo xs (elim r as (λ _. Exec Net ℕ) [
            | ret k s' ↦ ret k (record {
              stack = record n.stack { assos = set n.stack.assos i s'.asso };
              packet = s'.array;
              drawn = s'.drawn;
              ber = s'.ber;
            })
            | fault ↦ fault
          ])
      go (ret k s') e = h s'.asso (server_execute-Step hal start e)
      go fault e = tt

  run_services-MovesTo :
      (service : M (Exchange Request) ℕ) (c : Channel) (n : Net) (xs : List Association)
      → Moves xs n.stack.assos
      → MovesTo xs (run_services hal app channel i service c n)
  unfolding run_services
  run_services-MovesTo service c n xs h =
      go (service (record { message = c.request; array = n.packet }))
    where
      go :
          (r : Exec (Exchange Request) ℕ)
          → MovesTo xs (elim r as (λ _. Exec Net ℕ) [
            | ret k t ↦ ret k (record n {
              stack = record n.stack {
                channels = set n.stack.channels channel (record c { request = t.message });
              };
              packet = t.array;
            })
            | fault ↦ fault
          ])
      go (ret k t) = h
      go fault = tt

  other_packet-MovesTo :
      (st : StateCf) (c : Channel) (n : Net) (xs : List Association)
      → Moves xs n.stack.assos
      → MovesTo xs (other_packet hal app channel i st c n)
  unfolding other_packet
  other_packet-MovesTo StateCf.associated c n xs h =
      run_services-MovesTo (server_services_execute app) c n xs h
  other_packet-MovesTo StateCf.association_pending c n xs h =
      run_services-MovesTo (hls_execute app) c n xs h
  other_packet-MovesTo StateCf.inactive c n xs h = h
  other_packet-MovesTo StateCf.idle c n xs h = h
  other_packet-MovesTo StateCf.association_release_pending c n xs h = h

  dispatch-MovesTo :
      (a : Association) (c : Channel) (n : Net) (xs : List Association)
      → Moves xs n.stack.assos
      → ((b : Association) → Step a.state_cf b.state_cf → Moves xs (set n.stack.assos i b))
      → MovesTo xs (dispatch hal app channel i a c n)
  unfolding dispatch
  dispatch-MovesTo a c n xs h k = go (Array.get_byte 0 n.packet)
    where
      if_tag :
          (t : Bool) (p : Array)
          → MovesTo xs (
              (if t
                  then run_asso hal app channel i a
                  else other_packet hal app channel i a.state_cf c)
                (record n { packet = p }))
      if_tag true p = run_asso-MovesTo a (record n { packet = p }) xs k
      if_tag false p = other_packet-MovesTo a.state_cf c (record n { packet = p }) xs h

      go :
          (r : Exec Array (Option ℕ))
          → MovesTo xs (elim r as (λ _. Exec Net ℕ) [
            | ret none p ↦ ret 0 (record n { packet = p })
            | ret (some tag) p ↦
                (if is_asso_tag tag
                    then run_asso hal app channel i a
                    else other_packet hal app channel i a.state_cf c)
                  (record n { packet = p })
            | fault ↦ fault
          ])
      go (ret none p) = h
      go (ret (some tag) p) = if_tag (is_asso_tag tag) p
      go fault = tt

module _ (hal : Hal) (app : App) (channel : ℕ) (n : Net) where
  on_asso-MovesTo :
      (i : ℕ) (conf : Config) (c : Channel) (o : Option Association)
      → get_elem? n.stack.assos i ≡ o
      → MovesTo n.stack.assos (on_asso hal app channel i conf c o n)
  unfolding on_asso
  on_asso-MovesTo i conf c none e = tt
  on_asso-MovesTo i conf c (some a) e =
      let xs = n.stack.assos in
      dispatch-MovesTo hal app channel i (configured conf a) (record c { asso = some i })
        (linked channel i conf a c n) xs (Moves-set xs i a (configured conf a) e (stay a.state_cf))
        (λ b step.
          subst (Moves xs) (sym (set-set xs i (configured conf a) b)) (Moves-set xs i a b e step))

  on_config-MovesTo :
      (c : Channel) (o : Option (ℕ × Config))
      → MovesTo n.stack.assos (on_config hal app channel c o n)
  unfolding on_config
  on_config-MovesTo c none = Moves-refl n.stack.assos
  on_config-MovesTo c (some (i, conf)) = on_asso-MovesTo i conf c (get_elem? n.stack.assos i) refl

  on_channel-MovesTo : (o : Option Channel) → MovesTo n.stack.assos (on_channel hal app channel o n)
  unfolding on_channel
  on_channel-MovesTo none = tt
  on_channel-MovesTo (some c) = on_config-MovesTo c (find_asso c.request.llc 0 n.stack.configs)

  if_set :
      (t : Bool) (r : Exec Net ℕ)
      → MovesTo n.stack.assos r
      → MovesTo n.stack.assos (if t then r else ret 0 n)
  if_set true r h = h
  if_set false r h = Moves-refl n.stack.assos

  execute-MovesTo : MovesTo n.stack.assos (execute hal app channel n)
  unfolding execute
  execute-MovesTo =
      if_set n.stack.is_set _ (on_channel-MovesTo (get_elem? n.stack.channels channel))

-- Whatever the packet is, and whatever the code of the application does, a run of
-- `csm_channel_execute` that returns leaves every association in its place, in the state that it had
-- or one step of `csm_asso_server_execute` further.
pub execute-Step :
    (hal : Hal) (app : App) (channel : ℕ) (n : Net) (j : ℕ) {k : ℕ} {n' : Net} {a : Association}
    → execute hal app channel n ≡ ret k n'
    → get_elem? n.stack.assos j ≡ some a
    → (b : Association) × (get_elem? n'.stack.assos j ≡ some b) × Step a.state_cf b.state_cf
execute-Step hal app channel n j {a = a} e at_j =
    subst (MovesTo n.stack.assos) e (execute-MovesTo hal app channel n) j a at_j

-- Packets on channels, one after the other.
unfoldable pub receive : Hal → App → List (ℕ × Array) → M Net (Unit {0})
receive hal app [] n = ret tt n
receive hal app ((channel, p) ∷ ps) n =
    (execute hal app channel >>= λ _. receive hal app ps) (record n { packet = p })

-- An association that waits for the client's proof still waits after any sequence of packets on any
-- channels that returns, whatever the application does: only the application itself can complete it.
pub receive-pending :
    (hal : Hal) (app : App) (ps : List (ℕ × Array)) (n : Net) (j : ℕ) {n' : Net} {a : Association}
    → receive hal app ps n ≡ ret tt n'
    → get_elem? n.stack.assos j ≡ some a
    → a.state_cf ≡ StateCf.association_pending
    → (b : Association) × (get_elem? n'.stack.assos j ≡ some b)
      × (b.state_cf ≡ StateCf.association_pending)
unfolding receive
receive-pending hal app [] n j {n'} {a} e at_j pending =
    (a, ap (assos_at j) (sym e) ∙ at_j, pending)
receive-pending hal app ((channel, p) ∷ ps) n j {n'} {a} e at_j pending =
    let start = record n { packet = p } in
    let (k, n1, run, e1) =
      bind_exec-ret (execute hal app channel start) (λ _. receive hal app ps) e in
    let (b, at_b, step) = execute-Step hal app channel start j run at_j in
    receive-pending hal app ps n1 j e1 at_b (Step-pending step pending ∙ pending)
