-- ===== src/Association/Security.antt =====
-- Who is granted an association: `csm_asso_is_granted` on every branch.
use cosemlib.Base.{
  ◌≡◌, ◌≢◌, ◌⊎◌, ◌↔◌, refl, ap, ◌∙◌, inl, inr, Option-cases, Bool, true, false, [], some, arith,
  take, splice, same_bytes_iff, ret,
}
use cosemlib.Association.{Session, Hal, StateCf, AuthLevel, Config, err_null}
use cosemlib.Association.Server.{is_granted, grant, check_password, with_password, conclude}

-- The client's challenge begins the bytes that the password leaves in the server's, to its whole size.
abbrev pub PasswordMatches : Hal → Session → Type 0
PasswordMatches hal s =
    (c : Config) × (s.asso.config ≡ some c)
    × (take s.asso.handshake.ctos.size
          (splice 0 (hal.lls_password c.llc.dsap 8) s.asso.handshake.stoc.value)
        ≡ take s.asso.handshake.ctos.size s.asso.handshake.ctos.value)

check_password-associated :
    (hal : Hal) (s : Session) {b : Bool} {s' : Session}
    → s.asso.state_cf ≡ StateCf.idle
    → check_password hal s ≡ ret b s'
    → (s'.asso.state_cf ≡ StateCf.associated) ↔ PasswordMatches hal s
unfolding check_password
check_password-associated hal s {b} {s'} idle e = elim (Option-cases s.asso.config) [
  | inl gone ↦ absurd (ground arith)
  | inr (c, found) ↦
      let n = s.asso.handshake.ctos.size in
      let stored = splice 0 (hal.lls_password c.llc.dsap 8) s.asso.handshake.stoc.value in
      let sent = s.asso.handshake.ctos.value in
      let compared = same_bytes_iff (take n stored) (take n sent) in
      (
        (λ done. (c, found, ground (arith, compared))),
        (λ (matches : PasswordMatches hal s).
            let same : c ≡ matches.0 = cc (found, matches.1) in
            let equal : take n stored ≡ take n sent =
              ap
                (λ k. take n (splice 0 (hal.lls_password k.llc.dsap 8) s.asso.handshake.stoc.value))
                same
              ∙ matches.2 in
            ground (arith, found, compared, equal)),
      )
]

grant-associated :
    (hal : Hal) (l : AuthLevel) (s : Session) {b : Bool} {s' : Session}
    → s.asso.state_cf ≡ StateCf.idle
    → grant hal l s ≡ ret b s'
    → (s'.asso.state_cf ≡ StateCf.associated)
      ↔ ((l ≡ AuthLevel.lowest) ⊎ (l ≡ AuthLevel.low) × PasswordMatches hal s)
unfolding grant
grant-associated hal AuthLevel.lowest s idle e = ((λ _. inl refl), (λ h. ground arith))
grant-associated hal AuthLevel.low s idle e =
    let checked = check_password-associated hal s idle e in
    ((λ done. inr (refl, checked.0 done)), (λ h. elim h [ inl never ↦ cc | inr p ↦ checked.1 p.1 ]))
grant-associated hal _ s idle e =
    ((λ done. absurd (ground arith)), (λ h. elim h [ inl never ↦ cc | inr p ↦ absurd (cc p.0) ]))

-- An idle association becomes associated at once exactly where its level is the lowest, or where it is
-- the low one and the password matches over the size of the client's challenge, which is 64 at most.
pub is_granted-associated :
    (hal : Hal) (s : Session) {b : Bool} {s' : Session}
    → s.asso.state_cf ≡ StateCf.idle
    → is_granted hal s ≡ ret b s'
    → (s'.asso.state_cf ≡ StateCf.associated) ↔ (
        (s.asso.auth_level ≡ AuthLevel.lowest)
        ⊎ (s.asso.auth_level ≡ AuthLevel.low) × PasswordMatches hal s)
unfolding is_granted
is_granted-associated hal s {b} {s'} idle e =
    let run : grant hal s.asso.auth_level s ≡ ret b s' = ground arith in
    grant-associated hal s.asso.auth_level s idle run

-- An association that is not idle is left as it is, and is refused.
pub is_granted_not_idle :
    (hal : Hal) (s : Session) → s.asso.state_cf ≢ StateCf.idle → is_granted hal s ≡ ret false s
unfolding is_granted grant
is_granted_not_idle hal s h = ground arith

-- At the low level an idle association with a configuration is granted to a client whose challenge has
-- size 0, whatever the password is: so it is when the request carries no authentication value and none
-- came before.
pub is_granted_no_password :
    (hal : Hal) (s : Session) (c : Config)
    → s.asso.state_cf ≡ StateCf.idle
    → s.asso.auth_level ≡ AuthLevel.low
    → s.asso.config ≡ some c
    → s.asso.handshake.ctos.size ≡ 0
    → (s' : Session) × (is_granted hal s ≡ ret true s') × (s'.asso.state_cf ≡ StateCf.associated)
unfolding is_granted grant
is_granted_no_password hal s c idle level config none_sent = (
  record s {
    asso = conclude StateCf.associated err_null (record s.asso {
      handshake = with_password (hal.lls_password c.llc.dsap 8) s.asso.handshake;
    });
  },
  ground (arith, (same_bytes_iff [] []).1 refl),
  refl,
)
