-- ===== src/Servers/Registry.antt =====
-- Registration, publication and the claims of key refreshes on the table of resolvers.
use dnscrypt_proxy_fork.Base.{
  All, ℕ, ◌+◌, ◌≡◌, refl, Bool, true, false, List, [], ◌∷◌, Option, none, some, String, str_eq,
  eq_iff, eq_refl, ltb, if◌then◌else◌, arith,
}
use dnscrypt_proxy_fork.Base.Dict.{lookup, lookup-insert, lookup-erase}
use dnscrypt_proxy_fork.Servers.Server.{ServerInfo}
use dnscrypt_proxy_fork.Servers.Info.{
  ServersInfo, RegisteredServer, register, server_by_name, publish, begin_odoh_refresh,
  end_odoh_refresh, cancel_odoh_refresh,
}

-- The stamp of the first entry of a name.
unfoldable pub stamp_of : {S : Type 0} → String → List (RegisteredServer S) → Option S
stamp_of name [] = none
stamp_of name (r ∷ rs) = if str_eq r.name name then some r.stamp else stamp_of name rs

-- Registering under a name makes its stamp the one found under it, and no other name's changes.
pub stamp_of-register :
    {S : Type 0} (name other : String) (stamp : S) (rs : List (RegisteredServer S))
    → stamp_of other (register name stamp rs)
      ≡ (if str_eq name other then some stamp else stamp_of other rs)
unfolding stamp_of register
stamp_of-register name other stamp [] = refl
stamp_of-register name other stamp (r ∷ rs) = ground (
  arith,
  eq_iff name other,
  eq_iff r.name name,
  eq_iff r.name other,
  stamp_of-register name other stamp rs,
)

module _ {F R : Type 0} where
  -- Publishing a refreshed server makes it the one found under its name, and keeps what is found under
  -- every other.
  server_by_name-publish :
      (new : ServerInfo F R) (other : String) (ss : List (ServerInfo F R))
      → server_by_name other (publish new ss)
        ≡ (if str_eq new.name other then some new else server_by_name other ss)
  unfolding server_by_name publish
  server_by_name-publish new other [] = refl
  server_by_name-publish new other (s ∷ ss) = ground (
    arith,
    eq_iff new.name other,
    eq_iff s.name new.name,
    eq_iff s.name other,
    server_by_name-publish new other ss,
  )

-- A call of beginODoHRefresh, endODoHRefresh or cancelODoHRefresh.
pub data RefreshStep : Type 0 where
  begin : String → ℕ → ℕ → RefreshStep
  end' : String → Bool → ℕ → RefreshStep
  cancel : String → RefreshStep

-- The step gives up the claim of the name.
abbrev pub releases : String → RefreshStep → Bool
releases name (begin other cooldown now) = false
releases name (end' other success now) = str_eq other name
releases name (cancel other) = str_eq other name

module _ {F R S : Type 0} where
  unfoldable pub refresh_step : ServersInfo F R S → RefreshStep → ServersInfo F R S
  refresh_step si (begin name cooldown now) = (begin_odoh_refresh si name cooldown now).0
  refresh_step si (end' name success now) = end_odoh_refresh si name success now
  refresh_step si (cancel name) = cancel_odoh_refresh si name

  pub refresh_steps : ServersInfo F R S → List RefreshStep → ServersInfo F R S
  refresh_steps si [] = si
  refresh_steps si (s ∷ ss) = refresh_steps (refresh_step si s) ss

  -- A claim of the name is in flight.
  abbrev IsClaimed : String → ServersInfo F R S → Type 0
  IsClaimed name si = lookup name si.odoh_refresh_in_flight ≡ some true

  refresh_step-IsClaimed :
      (name : String) (si : ServersInfo F R S) (s : RefreshStep)
      → IsClaimed name si
      → releases name s ≡ false
      → IsClaimed name (refresh_step si s)
  unfolding refresh_step begin_odoh_refresh end_odoh_refresh cancel_odoh_refresh
  refresh_step-IsClaimed name si (begin other cooldown now) h r =
      ground (arith, h, lookup-insert other name true si.odoh_refresh_in_flight)
  refresh_step-IsClaimed name si (end' other success now) h r =
      ground (arith, h, r, lookup-erase other name si.odoh_refresh_in_flight)
  refresh_step-IsClaimed name si (cancel other) h r =
      ground (arith, h, r, lookup-erase other name si.odoh_refresh_in_flight)

  refused :
      (name : String) (si : ServersInfo F R S) (ss : List RefreshStep) (cooldown later : ℕ)
      → IsClaimed name si
      → All (λ s. releases name s ≡ false) ss
      → (begin_odoh_refresh (refresh_steps si ss) name cooldown later).1 ≡ false
  unfolding begin_odoh_refresh refresh_steps
  refused name si [] cooldown later h rs = ground (arith, h)
  refused name si (s ∷ ss) cooldown later h (r, rs) =
      refused name (refresh_step si s) ss cooldown later (refresh_step-IsClaimed name si s h r) rs

  granted-IsClaimed :
      (si : ServersInfo F R S) (name : String) (cooldown now : ℕ)
      → (begin_odoh_refresh si name cooldown now).1 ≡ true
      → IsClaimed name (begin_odoh_refresh si name cooldown now).0
  unfolding begin_odoh_refresh
  granted-IsClaimed si name cooldown now h =
      ground (arith, eq_refl name, lookup-insert name name true si.odoh_refresh_in_flight)

  -- A granted claim is exclusive: after any sequence of begins, ends and cancels in which the claim is
  -- neither ended nor cancelled, no claim of the same name is granted, at any time and with any
  -- cool-down. The sequence may grant, end and cancel claims of other names.
  pub begin_odoh_refresh_exclusive :
      (si : ServersInfo F R S) (name : String) (cooldown now : ℕ) (ss : List RefreshStep)
      (cooldown' later : ℕ)
      → (begin_odoh_refresh si name cooldown now).1 ≡ true
      → All (λ s. releases name s ≡ false) ss
      → let held = (begin_odoh_refresh si name cooldown now).0 in
        (begin_odoh_refresh (refresh_steps held ss) name cooldown' later).1 ≡ false
  begin_odoh_refresh_exclusive si name cooldown now ss cooldown' later h rs =
      refused name (begin_odoh_refresh si name cooldown now).0 ss cooldown' later
        (granted-IsClaimed si name cooldown now h) rs

  -- After a failed refresh the next claim of the name is granted exactly when the cool-down is over;
  -- after a successful one it is granted at once.
  begin-end_odoh_refresh :
      (si : ServersInfo F R S) (name : String) (success : Bool) (at cooldown now : ℕ)
      → (begin_odoh_refresh (end_odoh_refresh si name success at) name cooldown now).1
        ≡ (if success then true else if ltb now (at + cooldown) then false else true)
  unfolding begin_odoh_refresh end_odoh_refresh
  begin-end_odoh_refresh si name success at cooldown now = ground (
    arith,
    eq_refl name,
    lookup-erase name name si.odoh_refresh_in_flight,
    lookup-erase name name si.odoh_last_failure_at,
    lookup-insert name name at si.odoh_last_failure_at,
  )
