-- ===== src/MySql/Connection/Reported.antt =====
-- Which users a MySQL server reports.
use db_operator.Base.{
  Result-cases, ap, ap, ◌∙◌, Text, codes, text_eq, text_eq_iff, has_prefix, ok, List, [], ◌∷◌,
  Option, none, Bool, true, false, ◌≡◌, inl, inr, refl, arith, Bool-cases, subst,
}
use db_operator.Base.{◌>>=◌ as and_then}
use db_operator.Base.Exec.{lift, Exec, bind-ok}
use db_operator.Base.Maps.{lookup, lookup-store}
use db_operator.Interfaces.Sql.{Sql}
use db_operator.MySql.Connection.{user_row, note_user, users_of, query_users, read_users, get_users}

abbrev is_system : Text → Bool
is_system name = has_prefix name (codes "mysql.")

module _ ⦃db : Sql⦄ (get_db_connection : Option Text → Option Text → Exec db.World db.Conn) where
  note_user-unlisted :
      (n name host : Text) (found : List (Text × Text))
      → is_system n ≡ true
      → lookup n found ≡ none
      → lookup n (note_user get_db_connection (name, host) found) ≡ none
  note_user-unlisted n name host found system fresh = elim (Bool-cases (is_system name)) [
    | inl skipped ↦ rw skipped fresh
    | inr stored ↦ rw stored (elim (Bool-cases (text_eq name n)) [
      | inl same ↦
          let equal : name ≡ n = (text_eq_iff name n).0 same in
          absurd (ground (arith, subst (λ t. is_system t ≡ false) equal stored, system))
      | inr other ↦ lookup-store name n host found ∙ rw other fresh
    ])
  ]

  users_of-unlisted :
      (n : Text) (found : List (Text × Text)) (rows : List (List db.Value))
      (users : List (Text × Text))
      → is_system n ≡ true
      → lookup n found ≡ none
      → users_of get_db_connection found rows ≡ ok users
      → lookup n users ≡ none
  unfolding users_of
  users_of-unlisted n found [] users system fresh h = cc
  users_of-unlisted n found (row ∷ rows) users system fresh h =
      elim (Result-cases (user_row get_db_connection row)) [
        | inl ((name, host), read) ↦
            users_of-unlisted n (note_user get_db_connection (name, host) found) rows users system
              (note_user-unlisted n name host found system fresh)
              (subst
                (λ r.
                  and_then r (λ user.
                    users_of get_db_connection (note_user get_db_connection user found) rows)
                  ≡ ok users)
                read h)
        | inr bad ↦ absurd (elim bad [ inl (x, b) ↦ cc | inr b ↦ cc ])
      ]

  -- A list of users that is read from the server has no user whose name begins with "mysql.".
  pub get_users-unlisted :
      (n : Text) (w w' : db.World) (users : List (Text × Text))
      → is_system n ≡ true
      → get_users get_db_connection w ≡ (ok users, w')
      → lookup n users ≡ none
  unfolding get_users read_users lookup
  get_users-unlisted n w w' users system h =
      let (conn, w₁, connected, rest) =
        bind-ok (get_db_connection none none) (read_users get_db_connection) w w' users h in
      let (rows, w₂, read, last) =
        bind-ok (query_users get_db_connection conn)
          (λ rows. lift (users_of get_db_connection [] rows)) w₁ w' users rest in
      users_of-unlisted n [] rows users system refl (ap (λ r. r.0) last)
