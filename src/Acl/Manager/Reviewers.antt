-- ===== src/Acl/Manager/Reviewers.antt =====
-- Who reviews an application: the three places of acl/manager.py that decide it agree.
use text.Mathlib.TextEquality.{eq_iff}
use next_me.Common.{
  ◌>>=◌, String, ◌≡◌, ◌≢◌, ◌↔◌, ◌⊎◌, refl, true, some, List, [], ◌++◌, map, arith, ◌==◌,
  string_comparable, find, ok, elem, ◌&&◌, Bool-cases, inl, inr, In, In-keep, In-map, In-of_In-map,
  In-append, In-of_find, find_of_In, find_passes, elem-In, map-eq-some, All-In, In-sort_by, sort_by,
  keep, equals_refl,
}
use next_me.Acl.Schema.{
  Role, admin, owner, collaborator, pending, status_comparable, role_comparable, AclUser,
  AclApplication, AppRow, role_beq_iff,
}
use next_me.Acl.Db.{is_stored_role, AclDb, row_to_application}
use next_me.Acl.Db.Users.{has_id, by_added_at}
use next_me.Acl.Db.Users
use next_me.Acl.Db.Applications.{by_requested_at}
use next_me.Acl.Db.Applications
use next_me.Acl.Db.Invariant.{IsValid}
use next_me.Acl.Manager.{AclManager, can_review, list_pending, get_reviewers_for_role}
use next_me.Acl.Manager.Roles.{role_in, stored_role}

abbrev rows_for : Role → List AppRow → List AppRow
rows_for admin rows = keep (λ row. row.status == pending) rows
rows_for owner rows = keep (λ row. row.status == pending && row.requested_role == collaborator) rows
rows_for collaborator rows = []

abbrev MayReview : Role → AppRow → Type 0
MayReview role row = (row.status ≡ pending) × (can_review role row.requested_role ≡ true)

In-rows_for :
    (role : Role) (row : AppRow) (rows : List AppRow)
    → In row (rows_for role rows) ↔ (In row rows × MayReview role row)
unfolding can_review
In-rows_for admin row rows = ground (arith, In-keep row (λ (r : AppRow). r.status == pending) rows)
In-rows_for owner row rows = ground (
  arith,
  In-keep row (λ (r : AppRow). r.status == pending && r.requested_role == collaborator) rows,
)
In-rows_for collaborator row rows = ground arith

list_pending_lem :
    (role : Role) (s : AclManager)
    → s.db.is_open ≡ true
    → list_pending role s
      ≡ (ok (map row_to_application (by_requested_at (rows_for role s.db.applications))), s)
unfolding list_pending Applications.list_pending_applications sort_by ◌>>=◌
list_pending_lem admin s e = ground arith
list_pending_lem owner s e = ground arith
list_pending_lem collaborator s e = refl

-- On an open database `list_pending` lists exactly the pending applications that, by `can_review`,
-- the viewer's role may review, and changes nothing.
list_pending-can_review :
    (role : Role) (s : AclManager) (app : AclApplication)
    → s.db.is_open ≡ true
    → (apps : List AclApplication) × (list_pending role s ≡ (ok apps, s))
      × (In app apps ↔ (
          (row : AppRow) × In row s.db.applications
          × MayReview role row
          × (app ≡ row_to_application row)))
list_pending-can_review role s app is_open =
    (map row_to_application rows, list_pending_lem role s is_open, (to, from))
  where
    rows : List AppRow
    rows = by_requested_at (rows_for role s.db.applications)

    to :
        In app (map row_to_application rows)
        → (row : AppRow) × In row s.db.applications
          × MayReview role row
          × (app ≡ row_to_application row)
    to m =
        let (row, n, e) = In-of_In-map row_to_application app rows m in
        let (stands, may) =
          (In-rows_for role row s.db.applications).0
            ((In-sort_by _ row (rows_for role s.db.applications)).0 n) in
        (row, stands, may, e)

    from :
        (row : AppRow) × In row s.db.applications
          × MayReview role row
          × (app ≡ row_to_application row)
        → In app (map row_to_application rows)
    from (row, stands, may, e) = rw e (
        In-map row_to_application row rows (
          (In-sort_by _ row (rows_for role s.db.applications)).1
            ((In-rows_for role row s.db.applications).1 (stands, may))))

abbrev owners_of : List AclUser → List AclUser
owners_of users = keep (λ u. u.role == owner) users

-- The owners listed are the users whose stored role is that of an owner.
In-owners :
    (id : String) (db : AclDb)
    → IsValid db
    → In id (map (λ u. u.open_id) (by_added_at (owners_of db.users)))
      ↔ (stored_role id db ≡ some owner)
In-owners id db v = (to, from)
  where
    to :
        In id (map (λ u. u.open_id) (by_added_at (owners_of db.users)))
        → stored_role id db ≡ some owner
    to m =
        let (u, n, e) =
          In-of_In-map (λ (w : AclUser). w.open_id) id (by_added_at (owners_of db.users)) m in
        let (stands, is_owner) =
          (In-keep u (λ (w : AclUser). w.role == owner) db.users).0
            ((In-sort_by _ u (owners_of db.users)).0 n) in
        ground (
          arith,
          find_of_In (has_id id) db.users u (v.one_row id) stands (rw e (equals_refl u.open_id)),
          role_beq_iff u.role owner,
        )

    from :
        stored_role id db ≡ some owner
        → In id (map (λ u. u.open_id) (by_added_at (owners_of db.users)))
    from e =
        let (u, found, is_owner) =
          map-eq-some (λ (w : AclUser). w.role) (find (has_id id) db.users) owner e in
        let same = (eq_iff u.open_id id).0 (find_passes (has_id id) db.users u found) in
        let kept =
          (In-keep u (λ (w : AclUser). w.role == owner) db.users).1
            (In-of_find (has_id id) db.users u found, (role_beq_iff u.role owner).1 is_owner) in
        rw (← same) (
          In-map (λ (w : AclUser). w.open_id) u (by_added_at (owners_of db.users))
            ((In-sort_by _ u (owners_of db.users)).1 kept))

-- No stored role is that of an administrator.
never_admin : (id : String) (db : AclDb) → IsValid db → stored_role id db ≢ some admin
never_admin id db v e =
    let (u, found, is_admin) =
      map-eq-some (λ (w : AclUser). w.role) (find (has_id id) db.users) admin e in
    let stored =
      All-In (λ (w : AclUser). is_stored_role w.role ≡ true) u db.users v.stored_roles
        (In-of_find (has_id id) db.users u found) in
    ground arith

reviewers_of_owner : (s : AclManager) → get_reviewers_for_role owner s ≡ (ok s.admin_users, s)
unfolding get_reviewers_for_role
reviewers_of_owner s = refl

reviewers_of_collaborator :
    (s : AclManager)
    → s.db.is_open ≡ true
    → get_reviewers_for_role collaborator s
      ≡ (ok (map (λ u. u.open_id) (by_added_at (owners_of s.db.users)) ++ s.admin_users), s)
unfolding get_reviewers_for_role Users.list_users ◌>>=◌
reviewers_of_collaborator s is_open = ground arith

-- Whose held role passes.
abbrev pub MayReviewFor : AclManager → String → Role → Type 0
MayReviewFor s id role = (held : Role) × (role_in s id ≡ some held) × (can_review held role ≡ true)

may_of_admin :
    (s : AclManager) (id : String) (role : Role)
    → elem id s.admin_users ≡ true
    → MayReviewFor s id role
unfolding can_review
may_of_admin s id role e = (admin, ground arith, refl)

may_of_owner :
    (s : AclManager) (id : String)
    → stored_role id s.db ≡ some owner
    → MayReviewFor s id collaborator
unfolding can_review
may_of_owner s id e = elim (Bool-cases (elem id s.admin_users)) [
  | inl listed ↦ may_of_admin s id collaborator listed
  | inr free ↦ (owner, ground arith, refl)
]

admin_of_may :
    (s : AclManager) (id : String)
    → IsValid s.db
    → MayReviewFor s id owner
    → elem id s.admin_users ≡ true
unfolding can_review
admin_of_may s id v (held, e, may) = ground (arith, never_admin id s.db v)

owner_of_may :
    (s : AclManager) (id : String)
    → IsValid s.db
    → MayReviewFor s id collaborator
    → (stored_role id s.db ≡ some owner) ⊎ (elem id s.admin_users ≡ true)
unfolding can_review
owner_of_may s id v (held, e, may) = ground (arith, never_admin id s.db v)

-- On a valid, open database `get_reviewers_for_role` answers exactly the users whose role, by
-- `can_review`, may review an application for the role of an owner or a collaborator.
reviewers-can_review :
    (role : Role) (id : String) (s : AclManager)
    → IsValid s.db
    → s.db.is_open ≡ true
    → role ≢ admin
    → (ids : List String) × (get_reviewers_for_role role s ≡ (ok ids, s))
      × (In id ids ↔ MayReviewFor s id role)
reviewers-can_review admin id s v is_open other = absurd (other refl)
reviewers-can_review owner id s v is_open other = (
  s.admin_users,
  reviewers_of_owner s,
  (
    λ m. may_of_admin s id owner ((elem-In id s.admin_users).1 m),
    λ may. (elem-In id s.admin_users).0 (admin_of_may s id v may),
  ),
)
reviewers-can_review collaborator id s v is_open other = (
  map (λ u. u.open_id) (by_added_at (owners_of s.db.users)) ++ s.admin_users,
  reviewers_of_collaborator s is_open,
  (to, from),
)
  where
    owners : List String
    owners = map (λ u. u.open_id) (by_added_at (owners_of s.db.users))

    to : In id (owners ++ s.admin_users) → MayReviewFor s id collaborator
    to m = elim ((In-append id owners s.admin_users).0 m) [
      | inl n ↦ may_of_owner s id ((In-owners id s.db v).0 n)
      | inr n ↦ may_of_admin s id collaborator ((elem-In id s.admin_users).1 n)
    ]

    from : MayReviewFor s id collaborator → In id (owners ++ s.admin_users)
    from may = (In-append id owners s.admin_users).1 (elim (owner_of_may s id v may) [
      | inl e ↦ inl ((In-owners id s.db v).1 e)
      | inr e ↦ inr ((elem-In id s.admin_users).0 e)
    ])
