-- ===== src/Authentication/Joins.antt =====
-- The joins of Authentication/Statements as filters, and the rows that they find.
use bff.Prelude.{
  map-All, true, ◌==◌, List, [], ◌∷◌, In, map, filter, All, All-append, All-imp, filter-In, arith,
  ◌≡◌, refl,
}
use bff.Text.{Text, text_eq_iff}
use bff.Db.{Db, UserRow, IdentityRow, SessionRow}
use bff.Authentication.Statements.{
  join_user, join_users, select_identity, is_identity, join_session,
}

pub join_user-filter :
    (i : IdentityRow) (us : List UserRow)
    → join_user i us ≡ map (λ u. (i, u)) (filter (λ u. u.id == i.user_id) us)
unfolding join_user
join_user-filter i [] = refl
join_user-filter i (u ∷ us) = ground (arith, join_user-filter i us)

pub join_session-filter :
    (r : IdentityRow × UserRow) (ss : List SessionRow)
    → join_session r ss ≡ map (λ s. (r, s)) (filter (λ s. s.user_auth_identity_id == r.0.id) ss)
unfolding join_session
join_session-filter r [] = refl
join_session-filter r (s ∷ ss) = ground (arith, join_session-filter r ss)

-- A row of the join of `i`, for `i` in a table.
pub record IsRow (issuer subject : Text) (db : Db) (r : IdentityRow × UserRow) : Type 0 where
  pub identity : In r.0 db.identities
  pub user : In r.1 db.users
  pub joined : r.1.id ≡ r.0.user_id
  pub same_issuer : r.0.issuer ≡ issuer
  pub same_subject : r.0.subject ≡ subject

identified :
    (issuer subject : Text) (i : IdentityRow)
    → is_identity issuer subject i ≡ true
    → (i.issuer ≡ issuer) × (i.subject ≡ subject)
identified issuer subject i h =
    ground (arith, text_eq_iff i.issuer issuer, text_eq_iff i.subject subject)

join-All :
    (issuer subject : Text) (db : Db) (is : List IdentityRow)
    → All (λ i. (is_identity issuer subject i ≡ true) × In i db.identities) is
    → All (IsRow issuer subject db) (join_users is db.users)
unfolding join_users
join-All issuer subject db [] h = tt
join-All issuer subject db (i ∷ is) h =
    let named = identified issuer subject i h.0.0 in
    All-append (IsRow issuer subject db) _ (join_users is db.users)
      (rw (join_user-filter i db.users) (
        map-All (IsRow issuer subject db) (λ u. (i, u)) _
          (All-imp _ _ _
            (λ u e. record {
              identity = h.0.1;
              user = e.1;
              joined = ground arith;
              same_issuer = named.0;
              same_subject = named.1;
            })
            (filter-In (λ u. u.id == i.user_id) db.users))))
      (join-All issuer subject db is h.1)

-- Every row that the query finds is one.
pub select_identity-IsRow :
    (issuer subject : Text) (db : Db)
    → All (IsRow issuer subject db) (select_identity issuer subject db)
unfolding select_identity
select_identity-IsRow issuer subject db =
    join-All issuer subject db _ (filter-In (is_identity issuer subject) db.identities)
