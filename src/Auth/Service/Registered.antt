-- ===== src/Auth/Service/Registered.antt =====
-- `Register` and `Login` of internal/auth/application/service/auth_service.go.
use go_pet_project.Base.{
  ℕ, suc, true, false, some, none, [], ◌∷◌, ◌++◌, ◌≡◌, refl, sym, ap, ◌∙◌, arith, find, inl, inr,
  Option-cases, is_some,
}
use go_pet_project.Base.Text.{Text, is_empty}
use go_pet_project.Errors.{Result, ok, err, Result-cases}
use go_pet_project.World.{World, tick}
use go_pet_project.User.Domain.{User}
use go_pet_project.User.Repository as Users
use go_pet_project.User.Repository.{has_email, has_username, find_by_email, find_by_username}
use go_pet_project.Auth.Email.{validate_email}
use go_pet_project.Auth.Commands.{RegisterCommand, validate_register_command, is_bad_length}
use go_pet_project.Auth.Service.{
  UserResult, to_user_result, refuse_taken, created, add_user, register,
}

not_blank : (p : Text) → is_bad_length p ≡ false → is_empty p ≡ false
not_blank [] h = cc
not_blank (c ∷ p) h = refl

-- What the validation of a registration has seen to.
validate_register_command-ok :
    (cmd : RegisterCommand) (w : World) {email username timezone : Text}
    → validate_register_command w.env cmd ≡ ok (email, username, timezone)
    → (validate_email w.env.is_ip cmd.email ≡ ok email)
      × (is_empty cmd.password ≡ false)
      × (is_some (w.env.zones timezone) ≡ true)
unfolding validate_register_command
validate_register_command-ok cmd w h = ground (arith, not_blank cmd.password)

-- A registration that succeeds has added one user, who has the e-mail that was asked for, which no
-- user had, and the hash of the password.
abbrev pub IsRegistered : RegisterCommand → World → UserResult → World → Type 0
IsRegistered cmd w u after =
    (user : User) × (n : ℕ) × (validate_email w.env.is_ip cmd.email ≡ ok user.email)
    × (find (has_email user.email) w.tables.users ≡ none)
    × (find (has_username user.username) w.tables.users ≡ none)
    × (w.env.hash_password n cmd.password ≡ some user.password_hash)
    × (is_some (w.env.zones user.timezone) ≡ true)
    × (u.id ≡ user.id)
    × (is_empty cmd.password ≡ false)
    × (after.tables ≡ record (w.tables) { users = w.tables.users ++ user ∷ [] })

refuse_taken-ok :
    (email username : Text) (w : World)
    → (refuse_taken email username w).0 ≡ ok tt
    → (find (has_email email) w.tables.users ≡ none)
      × (find (has_username username) w.tables.users ≡ none)
      × ((refuse_taken email username w).1 ≡ tick (tick w))
unfolding refuse_taken find_by_email find_by_username
refuse_taken-ok email username w h = ground arith

create-ok :
    (user : User) (w : World) {u : User}
    → (Users.create user w).0 ≡ ok u
    → (u ≡ user)
      × ((Users.create user w).1.tables ≡ record (w.tables) { users = w.tables.users ++ user ∷ [] })
unfolding Users.create
create-ok user w h = ground arith

created-ok :
    (r : Result User) (w : World) {u : UserResult}
    → (created r w).0 ≡ ok u
    → (user : User) × (r ≡ ok user) × (u ≡ to_user_result user) × ((created r w).1 ≡ w)
created-ok (ok user) w h = (user, refl, ground arith, refl)
created-ok (err e) w h = absurd (ground arith)

add_user-ok :
    (email username timezone password : Text) (w : World) {u : UserResult}
    → (add_user email username timezone password w).0 ≡ ok u
    → (user : User) × (user.email ≡ email)
      × (user.username ≡ username)
      × (user.timezone ≡ timezone)
      × (w.env.hash_password w.step password ≡ some user.password_hash)
      × (u.id ≡ user.id)
      × ((add_user email username timezone password w).1.tables
          ≡ record (w.tables) { users = w.tables.users ++ user ∷ [] })
unfolding add_user
add_user-ok email username timezone password w h =
    elim (Option-cases (w.env.hash_password w.step password)) [
      | inl failed ↦ absurd (ground arith)
      | inr (hash, hashed) ↦
          let user : User = record {
            id = w.env.uuid (suc (suc w.step));
            email = email;
            username = username;
            password_hash = hash;
            timezone = timezone;
            created_at = w.env.clock (suc w.step);
            updated_at = w.env.clock (suc w.step);
          } in
          let w3 = tick (tick (tick w)) in
          let (made, stored, same, stays) =
            created-ok (Users.create user w3).0 (Users.create user w3).1 (rw hashed at h) in
          let (is, rows) = create-ok user w3 stored in
          (
            user,
            refl,
            refl,
            refl,
            hashed,
            ap (λ r. r.id) same ∙ ap (λ r. r.id) is,
            rw (hashed, stays) rows,
          )
    ]

pub register-IsRegistered :
    (cmd : RegisterCommand) (w : World) {u : UserResult}
    → (register cmd w).0 ≡ ok u
    → IsRegistered cmd w u (register cmd w).1
unfolding register
register-IsRegistered cmd w {u} h = elim (Result-cases (validate_register_command w.env cmd)) [
  | inr (e, bad) ↦ absurd (ground arith)
  | inl ((email, username, timezone), good) ↦
      let (valid, given, known) = validate_register_command-ok cmd w good in
      elim (Result-cases (refuse_taken email username w).0) [
        | inr (e, taken) ↦ absurd (ground arith)
        | inl (_, free) ↦
            let (no_email, no_name, after) = refuse_taken-ok email username w free in
            let (user, ue, uu, ut, hashed, id, rows) =
              add_user-ok email username timezone cmd.password (tick (tick w)) {u = u}
                (rw (good, free, after) at h) in
            (
              user,
              suc (suc w.step),
              valid ∙ ap ok (sym ue),
              rw ue no_email,
              rw uu no_name,
              hashed,
              rw ut known,
              id,
              given,
              rw (good, free, after) rows,
            )
      ]
]
