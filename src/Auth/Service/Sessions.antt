-- ===== src/Auth/Service/Sessions.antt =====
-- `Register` and `Login` of internal/auth/application/service/auth_service.go add at most a refresh
-- token.
use go_pet_project.Base.{
  ℕ, suc, List, [], ◌∷◌, ◌++◌, ◌≡◌, refl, sym, ◌∙◌, arith, find, inl, inr, Bool-cases, Option-cases,
  is_some, ap,
}
use mathlib.Core.List.{append-nil}
use go_pet_project.Base.Text.{Text}
use go_pet_project.Errors.{Result-cases}
use go_pet_project.World.{World, tick}
use go_pet_project.User.Repository as Users
use go_pet_project.User.Repository.{has_email}
use go_pet_project.Auth.Domain.{RefreshToken}
use go_pet_project.Auth.Repository as Tokens
use go_pet_project.Auth.Repository.{
  has_hash, is_unrevoked, revoked_row, find_by_hash, rotate_in, rotate, revoke_in, revoke, create,
}
use go_pet_project.Auth.Commands.{
  RegisterCommand, LoginCommand, validate_register_command, validate_login_command,
}
use go_pet_project.Auth.Service
use go_pet_project.Auth.Service.{
  Config, RefreshResult, new_refresh_token, generate_access_token, replace_token, exchange,
  refuse_taken, add_user, revoke_found, open_session, or_gone,
}
use go_pet_project.Auth.Service.Rotation.{tables-generate_access_token}

-- A call that adds at most a row of the table.
abbrev pub Adds : World → World → Type 0
Adds w w' =
    (more : List RefreshToken) × (w'.env ≡ w.env)
    × (w'.tables.refresh_tokens ≡ w.tables.refresh_tokens ++ more)

pub generate-env :
    (cfg : Config) (user : ℕ) (w : World) → (generate_access_token cfg user w).1.env ≡ w.env
unfolding generate_access_token
generate-env cfg user w = ground arith

pub stays :
    (w w' : World) → w'.env ≡ w.env → w'.tables.refresh_tokens ≡ w.tables.refresh_tokens → Adds w w'
stays w w' env rows = ([], env, rows ∙ sym (append-nil w.tables.refresh_tokens))

refuse_taken-env :
    (email username : Text) (w : World)
    → ((refuse_taken email username w).1.env ≡ w.env)
      × ((refuse_taken email username w).1.tables ≡ w.tables)
unfolding refuse_taken Users.find_by_email Users.find_by_username
refuse_taken-env email username w = (ground arith, ground arith)

add_user-env :
    (email username timezone password : Text) (w : World)
    → ((add_user email username timezone password w).1.env ≡ w.env)
      × ((add_user email username timezone password w).1.tables.refresh_tokens
          ≡ w.tables.refresh_tokens)
unfolding add_user Users.create
add_user-env email username timezone password w = (ground arith, ground arith)

create-Adds : (t : RefreshToken) (w : World) → Adds w (create t w).1
unfolding create
create-Adds t w = elim (Bool-cases (is_some (find (Tokens.conflicts t) w.tables.refresh_tokens))) [
  | inl taken ↦ stays w (create t w).1 (ground arith) (ground arith)
  | inr free ↦ elim (Bool-cases (w.env.statement_fails w.step)) [
    | inl down ↦ stays w (create t w).1 (ground arith) (ground arith)
    | inr up ↦ (t ∷ [], ground arith, ground arith)
  ]
]

pub register-env :
    (cmd : RegisterCommand) (w : World)
    → ((Service.register cmd w).1.env ≡ w.env)
      × ((Service.register cmd w).1.tables.refresh_tokens ≡ w.tables.refresh_tokens)
unfolding Service.register
register-env cmd w = elim (Result-cases (validate_register_command w.env cmd)) [
  | inr (e, bad) ↦ (ground arith, ground arith)
  | inl ((email, username, timezone), good) ↦
      let (env, same) = refuse_taken-env email username w in
      let (env', same') =
        add_user-env email username timezone cmd.password (refuse_taken email username w).1 in
      elim (Result-cases (refuse_taken email username w).0) [
        | inr (e, taken) ↦
            (rw (good, taken) env, rw (good, taken) (ap (λ db. db.refresh_tokens) same))
        | inl (_, free) ↦ (
          rw (good, free) (env' ∙ env),
          rw (good, free) (same' ∙ ap (λ db. db.refresh_tokens) same),
        )
      ]
]

open_session-Adds : (cfg : Config) (user : ℕ) (w : World) → Adds w (open_session cfg user w).1
unfolding open_session
open_session-Adds cfg user w =
    let made = generate_access_token cfg user w in
    let w1 = made.1 in
    let env = generate-env cfg user w in
    let same = ap (λ db. db.refresh_tokens) (tables-generate_access_token cfg user w) in
    elim (Result-cases made.0) [
      | inr (e, bad) ↦ rw bad (stays w w1 env same)
      | inl (access, good) ↦ elim (Option-cases (w1.env.random_token w1.step)) [
        | inl failed ↦ rw (good, failed) (stays w (tick w1) env same)
        | inr (raw, read) ↦
            let w2 = tick (tick (tick w1)) in
            let new =
              new_refresh_token cfg (w1.env.uuid (suc (suc w1.step))) user (w1.env.sha256_hex raw)
                (w1.env.clock (suc w1.step)) in
            let (more, env', rows) = create-Adds new w2 in
            elim (Result-cases (create new w2).0) [
              | inr (e, bad) ↦
                  rw (good, read, bad) (more, env' ∙ env, rows ∙ ap (λ ts. ts ++ more) same)
              | inl (t, stored) ↦
                  rw (good, read, stored) (more, env' ∙ env, rows ∙ ap (λ ts. ts ++ more) same)
            ]
      ]
    ]

pub login-Adds :
    (cfg : Config) (cmd : LoginCommand) (w : World) → Adds w (Service.login cfg cmd w).1
unfolding Service.login Users.find_by_email
login-Adds cfg cmd w = elim (Result-cases (validate_login_command w.env cmd)) [
  | inr (e, bad) ↦ rw bad (stays w w refl refl)
  | inl (email, good) ↦ elim (Bool-cases (w.env.statement_fails w.step)) [
    | inl down ↦ rw (good, down) (stays w (tick w) refl refl)
    | inr up ↦ elim (Option-cases (find (has_email email) w.tables.users)) [
      | inl unknown ↦ rw (good, up, unknown) (stays w (tick w) refl refl)
      | inr (user, found) ↦
          elim (Bool-cases (w.env.password_matches cmd.password user.password_hash)) [
            | inl right ↦ rw (good, up, found, right) (open_session-Adds cfg user.id (tick w))
            | inr wrong ↦ rw (good, up, found, wrong) (stays w (tick w) refl refl)
          ]
    ]
  ]
]
