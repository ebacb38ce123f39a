-- ===== src/Auth/Service/Runs.antt =====
-- Sequences of calls of internal/auth/application/service/auth_service.go, and the refresh tokens
-- that are revoked.
use go_pet_project.Base.{
  suc, some, List, [], ◌∷◌, ◌++◌, ◌≡◌, ◌≢◌, refl, ◌∙◌, arith, find, update_rows,
}
use go_pet_project.Base.Found.{find-append, find-passes}
use go_pet_project.Base.Text.{Text, trim_space}
use go_pet_project.Errors.{ok}
use go_pet_project.World.{World, IsTransactional}
use go_pet_project.Auth.Repository.{has_hash, is_unrevoked, revoked_row}
use go_pet_project.Auth.Commands.{RegisterCommand, LoginCommand}
use go_pet_project.Auth.Service
use go_pet_project.Auth.Service.{
  Config, RefreshResult, new_refresh_token, generate_access_token, replace_token, exchange,
  refuse_taken, add_user, revoke_found, open_session, or_gone,
}
use go_pet_project.Auth.Service.Rotation.{find-revoked, refresh-IsRotated}
use go_pet_project.Auth.Service.Sessions.{Adds, stays, register-env, login-Adds}
use go_pet_project.Auth.Service.Revocations.{IsDead, Keeps, refresh-Keeps, logout-Keeps}

-- A call of the service, and what it leaves, also when it fails.
pub data Call : Type 0 where
  register : RegisterCommand → Call
  login : LoginCommand → Call
  refresh logout : Text → Call

abbrev perform : Config → Call → World → World
perform cfg (register cmd) w = (Service.register cmd w).1
perform cfg (login cmd) w = (Service.login cfg cmd w).1
perform cfg (refresh token) w = (Service.refresh cfg token w).1
perform cfg (logout token) w = (Service.logout token w).1

abbrev pub run : Config → List Call → World → World
run cfg [] w = w
run cfg (c ∷ cs) w = run cfg cs (perform cfg c w)

Adds-Keeps : (hash : Text) (w w' : World) → Adds w w' → Keeps hash w w'
Adds-Keeps hash w w' (more, env, rows) _ = (
  env,
  λ (t, found, dead).
      (t, rw rows (find-append (has_hash hash) w.tables.refresh_tokens more found), dead),
)

perform-Keeps : (hash : Text) (cfg : Config) (c : Call) (w : World) → Keeps hash w (perform cfg c w)
perform-Keeps hash cfg (register cmd) w =
    let (env, rows) = register-env cmd w in
    Adds-Keeps hash w (Service.register cmd w).1 (stays w (Service.register cmd w).1 env rows)
perform-Keeps hash cfg (login cmd) w =
    Adds-Keeps hash w (Service.login cfg cmd w).1 (login-Adds cfg cmd w)
perform-Keeps hash cfg (refresh token) w = refresh-Keeps hash cfg token w
perform-Keeps hash cfg (logout token) w = logout-Keeps hash token w

run-Keeps : (hash : Text) (cfg : Config) (cs : List Call) (w : World) → Keeps hash w (run cfg cs w)
run-Keeps hash cfg [] w t = (refl, λ dead. dead)
run-Keeps hash cfg (c ∷ cs) w t =
    let (env, kept) = perform-Keeps hash cfg c w t in
    let (env', kept') = run-Keeps hash cfg cs (perform cfg c w) (rw env t) in
    (env' ∙ env, λ dead. kept' (kept dead))

-- Where the database is transactional, a token whose row is revoked is refused by every refresh,
-- whatever calls of the service, failing ones included, have come before.
pub revoked_forever :
    (cfg : Config) (token : Text) (calls : List Call) (w : World) {r : RefreshResult}
    → IsTransactional w.env
    → IsDead (w.env.sha256_hex (trim_space token)) w.tables.refresh_tokens
    → (Service.refresh cfg token (run cfg calls w)).0 ≢ ok r
revoked_forever cfg token calls w t dead done =
    let hash = w.env.sha256_hex (trim_space token) in
    let (env, kept) = run-Keeps hash cfg calls w t in
    let (row, found, revoked) = kept dead in
    let (old, _, there, live, _, _, _, _, _) = refresh-IsRotated cfg token (run cfg calls w) done in
    let again : find (has_hash hash) (run cfg calls w).tables.refresh_tokens ≡ some old =
      rw env at there in
    absurd (ground arith)

-- Where the database is transactional, a refresh that succeeds has used its token up: no refresh
-- with the same token succeeds, whatever calls of the service, failing ones included, come between.
pub refresh_once_ever :
    (cfg : Config) (token again : Text) (calls : List Call) (w : World) {r s : RefreshResult}
    → IsTransactional w.env
    → (Service.refresh cfg token w).0 ≡ ok r
    → trim_space again ≡ trim_space token
    → (Service.refresh cfg again (run cfg calls (Service.refresh cfg token w).1)).0 ≢ ok s
refresh_once_ever cfg token again calls w t h same =
    let hash = w.env.sha256_hex (trim_space token) in
    let at = w.env.clock (suc w.step) in
    let v = (Service.refresh cfg token w).1 in
    let (env, _) = refresh-Keeps hash cfg token w t in
    let (old, new, found, live, _, _, _, _, db) = refresh-IsRotated cfg token w h in
    let passes = find-passes (has_hash hash) w.tables.refresh_tokens found in
    let dead : IsDead hash
        (update_rows (is_unrevoked hash) (revoked_row at) w.tables.refresh_tokens ++ new ∷ []) =
      (
        revoked_row at old,
        find-revoked hash at (is_unrevoked hash) w.tables.refresh_tokens (new ∷ []) found
            ∙ ground arith,
        refl,
      ) in
    revoked_forever cfg again calls v (rw env t) (rw (env, same, db) dead)
