-- ===== src/Core/Session/Permissions.antt =====
-- A session waits for one permission at a time, and no future is left waiting behind it.
use next_me.Common.{
  ℕ, ◌≡◌, ◌≢◌, refl, none, some, List, [], ◌∷◌, ◌++◌, arith, ◌==◌, nat_comparable, if◌then◌else◌,
  length, get_elem?, get_elem?-set, get_elem?-append_last, get_elem?-beyond, Option-cases, inl, inr,
}
use next_me.Core.Types.{PermOption, PermissionChoice}
use next_me.Core.Session.{
  Session, Future, Futures, waiting, cancelled, resolved, is_waiting, cancel_permission,
  set_permission_pending, resolve_permission,
}

-- The calls on one session: a request for permission, an answer of the user, a cancellation.
pub data Call : Type 0 where
  requests : List PermOption → Call
  answered : PermissionChoice → Call
  cancels : Call

unfoldable pub step : Futures × Session → Call → Futures × Session
step (fs, s) (requests options) =
    let (_, fs', s') = set_permission_pending options fs s in (fs', s')
step (fs, s) (answered choice) = resolve_permission choice fs s
step (fs, s) cancels = cancel_permission fs s

unfoldable pub run : Futures × Session → List Call → Futures × Session
run st [] = st
run st (c ∷ cs) = run (step st c) cs

-- A future that waits is the one that the session shows; without one there are no options.
pub record IsValid (st : Futures × Session) : Type 0 where
  pub only : (h : ℕ) → get_elem? st.0 h ≡ some waiting → st.1.perm_future ≡ some h
  pub none_left : st.1.perm_future ≡ none → st.1.perm_options ≡ []

-- What a call does to the future in any place.
cancel-get :
    (fs : Futures) (s : Session) (h : ℕ)
    → get_elem? (cancel_permission fs s).0 h ≡ (elim s.perm_future [
      | none ↦ get_elem? fs h
      | some p ↦
          if is_waiting (get_elem? fs p)
          then (if p == h then some cancelled else get_elem? fs h)
          else get_elem? fs h
    ])
unfolding cancel_permission
cancel-get fs s h = elim (Option-cases s.perm_future) [
  | inl e ↦ ground arith
  | inr (p, e) ↦ ground (arith, get_elem?-set fs p h cancelled waiting)
]

resolve-get :
    (choice : PermissionChoice) (fs : Futures) (s : Session) (h : ℕ)
    → get_elem? (resolve_permission choice fs s).0 h ≡ (elim s.perm_future [
      | none ↦ get_elem? fs h
      | some p ↦
          if is_waiting (get_elem? fs p)
          then (if p == h then some (resolved choice) else get_elem? fs h)
          else get_elem? fs h
    ])
unfolding resolve_permission
resolve-get choice fs s h = elim (Option-cases s.perm_future) [
  | inl e ↦ ground arith
  | inr (p, e) ↦ ground (arith, get_elem?-set fs p h (resolved choice) waiting)
]

request-get :
    (options : List PermOption) (fs : Futures) (s : Session) (h : ℕ)
    → let fs' = (cancel_permission fs s).0 in
      get_elem? (set_permission_pending options fs s).1 h
      ≡ (if h == length fs' then some waiting else get_elem? fs' h)
unfolding set_permission_pending
request-get options fs s h =
    ground (arith, get_elem?-append_last (cancel_permission fs s).0 waiting h)

-- Nothing is left waiting by a cancellation.
cancel_leaves_none :
    (fs : Futures) (s : Session) (h : ℕ)
    → IsValid (fs, s)
    → get_elem? (cancel_permission fs s).0 h ≢ some waiting
cancel_leaves_none fs s h v e = elim (Option-cases s.perm_future) [
  | inl gone ↦ ground (arith, cancel-get fs s h, v.only h)
  | inr (p, shown) ↦ ground (arith, cancel-get fs s h, v.only h)
]

-- Every call keeps it.
step-IsValid : (st : Futures × Session) (c : Call) → IsValid st → IsValid (step st c)
unfolding step
step-IsValid (fs, s) (requests options) v = record {
  only = λ h e.
      unfold set_permission_pending in
      ground (arith, request-get options fs s h, cancel_leaves_none fs s h v);
  none_left = λ e. unfold set_permission_pending in cc;
}
step-IsValid (fs, s) (answered choice) v = record {
  only = λ h e. elim (Option-cases s.perm_future) [
    | inl gone ↦ ground (arith, resolve-get choice fs s h, v.only h)
    | inr (p, shown) ↦
        unfold resolve_permission in ground (arith, resolve-get choice fs s h, v.only h)
  ];
  none_left = λ e. unfold resolve_permission in ground (arith, v.none_left);
}
step-IsValid (fs, s) cancels v = record {
  only = λ h e. absurd (cancel_leaves_none fs s h v e);
  none_left = λ e. unfold cancel_permission in refl;
}

step_settled :
    (st : Futures × Session) (c : Call) (h : ℕ) (f : Future)
    → get_elem? st.0 h ≡ some f
    → f ≢ waiting
    → get_elem? (step st c).0 h ≡ some f
unfolding step
step_settled (fs, s) (requests options) h f e final = elim (Option-cases s.perm_future) [
  | inl gone ↦ ground (
    arith,
    request-get options fs s h,
    cancel-get fs s h,
    get_elem?-beyond (cancel_permission fs s).0 h,
  )
  | inr (p, shown) ↦ ground (
    arith,
    request-get options fs s h,
    cancel-get fs s h,
    get_elem?-beyond (cancel_permission fs s).0 h,
  )
]
step_settled (fs, s) (answered choice) h f e final = elim (Option-cases s.perm_future) [
  | inl gone ↦ ground (arith, resolve-get choice fs s h)
  | inr (p, shown) ↦ ground (arith, resolve-get choice fs s h)
]
step_settled (fs, s) cancels h f e final = elim (Option-cases s.perm_future) [
  | inl gone ↦ ground (arith, cancel-get fs s h)
  | inr (p, shown) ↦ ground (arith, cancel-get fs s h)
]

-- Through every sequence of calls from a valid state, at most the future that the session shows is
-- still waiting, and a future that has been answered or cancelled keeps that outcome.
pub run_futures :
    (st : Futures × Session) (cs : List Call) (h : ℕ) (f : Future)
    → IsValid st
    → get_elem? st.0 h ≡ some f
    → f ≢ waiting
    → IsValid (run st cs) × (get_elem? (run st cs).0 h ≡ some f)
unfolding run
run_futures st [] h f v e final = (v, e)
run_futures st (c ∷ cs) h f v e final =
    run_futures (step st c) cs h f (step-IsValid st c v) (step_settled st c h f e final) final

-- A request makes a future that waits, and the next answer settles it; a further answer or a
-- cancellation changes nothing.
answer_settles_request :
    (options : List PermOption) (choice other : PermissionChoice) (fs : Futures) (s : Session)
    → let (h, fs1, s1) = set_permission_pending options fs s in
      let (fs2, s2) = resolve_permission choice fs1 s1 in
      (get_elem? fs1 h ≡ some waiting)
      × (get_elem? fs2 h ≡ some (resolved choice))
      × (resolve_permission other fs2 s2 ≡ (fs2, s2))
      × (cancel_permission fs2 s2 ≡ (fs2, s2))
unfolding set_permission_pending resolve_permission
answer_settles_request options choice other fs s =
    let fs' : Futures = (cancel_permission fs s).0 in
    (
      ground (arith, get_elem?-append_last fs' waiting (length fs')),
      ground (
        arith,
        get_elem?-append_last fs' waiting (length fs'),
        get_elem?-set (fs' ++ waiting ∷ []) (length fs') (length fs') (resolved choice) waiting,
      ),
      ground (arith, get_elem?-append_last fs' waiting (length fs')),
      unfold cancel_permission in ground (arith, get_elem?-append_last fs' waiting (length fs')),
    )
