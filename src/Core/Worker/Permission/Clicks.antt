-- ===== src/Core/Worker/Permission/Clicks.antt =====
-- A request for permission in core/worker.py, and the click on its card in core/dispatcher.py.
use next_me.Common.{
  ◌+◌, find, Option, List, ℕ, String, Bool, ◌≡◌, refl, ap, ◌∙◌, true, false, none, some, [], ◌∷◌,
  ◌++◌, any, ◌==◌, string_comparable, nat_comparable, if◌then◌else◌, length, get_elem?,
  get_elem?-append_last, lookup, lookup-insert, insert, equals_refl, ok, arith,
}
use next_me.Core.Types.{Task, PermOption, PermissionChoice, waiting_permission}
use next_me.Core.Session.{
  Session, UserContext, Registry, waiting, resolved, Futures, is_pending, cancel_permission,
  set_permission_pending, get_context,
}
use next_me.Core.Replies.{
  is_option, is_permission_reply, choice_of, answer_context, handle_card_action,
}
use next_me.Core.Replies.Settles.{card_action-answers}
use next_me.Core.Worker.Permission.Options.{
  numbered_from, numbered_find, offered_any, offered_options, picked, choice_of-picked,
  chosen-picked,
}
use next_me.Core.Worker.{canceled_task}
use next_me.Core.Worker.Permission.{
  PermissionRequest, is_nil, is_denied, chosen, waits, Asked, Scene, session_at, arrive,
  request_permission, ask, take_choice, answer,
}

-- The request waits: its future is the last one, and the session shows it with its options.
record IsAsked (req : PermissionRequest) (s' : Session) (fs' : Futures) (h : ℕ) : Type 0 where
  future : s'.perm_future ≡ some h
  options : s'.perm_options ≡ req.options
  waiting_there : get_elem? fs' h ≡ some waiting

asked_lem :
    (req : PermissionRequest) (fs : Futures) (s : Session)
    → let (h, fs', s') = set_permission_pending req.options fs s in IsAsked req s' fs' h
unfolding set_permission_pending
asked_lem req fs s =
    let fs' = (cancel_permission fs s).0 in
    record {
      future = refl;
      options = refl;
      waiting_there =
          ground (arith, get_elem?-append_last fs' waiting (length fs'), equals_refl (length fs'));
    }

asked-reply :
    (req : PermissionRequest) (s' : Session) (fs' : Futures) (h index : ℕ)
    → IsAsked req s' fs' h
    → any (is_option index) req.options ≡ true
    → is_permission_reply fs' s' (some index) ≡ true
unfolding is_permission_reply
asked-reply req s' fs' h index a o = rw (a.future, a.options, a.waiting_there, o) refl

take_choice-task :
    (denies : String → Bool) (req : PermissionRequest) (choice : PermissionChoice) (s : Session)
    → (take_choice denies req choice s).active_task ≡ (
        if is_denied denies (chosen req choice) then canceled_task s.active_task else s.active_task)
unfolding take_choice
take_choice-task denies req choice s = ground arith

pending-task :
    (req : PermissionRequest) (fs : Futures) (s : Session)
    → (set_permission_pending req.options fs s).2.active_task ≡ s.active_task
unfolding set_permission_pending cancel_permission
pending-task req fs s = refl

-- What has become of the request by then, whose option stands at this place.
pub record IsAnswered (denies : String → Bool) (req : PermissionRequest) (fs : Futures)
    (s : Session) (id : String) (contexts : Registry) (ctx : UserContext) (n : ℕ) (opt : PermOption)
    : Type 0 where
  pub h : ℕ
  pub fs' : Futures
  pub s' : Session
  pub asked : ask req fs s ≡ (waits h, fs', s')
  pub waited : get_elem? fs' h ≡ some waiting
  -- what the click leaves
  pub clicked : Futures × Registry
  pub clicks : clicked ≡ handle_card_action id (n + 1) s.project_name fs' contexts
  pub futures :
      (place : ℕ)
      → get_elem? clicked.0 place
        ≡ (if h == place then some (resolved (picked n opt)) else get_elem? fs' place)
  pub taken : Session
  pub released : taken ≡ record s' { perm_future = none; perm_options = [] }
  pub kept :
      get_context id clicked.1
      ≡ some (record ctx { sessions = insert s.project_name taken ctx.sessions })
  -- and the worker, with that answer
  pub given : (answer denies req (resolved (picked n opt)) clicked.0 taken).0 ≡ ok (picked n opt)
  pub marked : (answer denies req (resolved (picked n opt)) clicked.0 taken).2.active_task ≡ (
      if denies opt.label
      then elim s.active_task [ none ↦ none | some task ↦ some (record task { canceled = true }) ]
      else s.active_task)

marked_lem :
    (denies : String → Bool) (req : PermissionRequest) (n : ℕ) (opt : PermOption) (s : Session)
    → get_elem? req.options n ≡ some opt
    → (take_choice denies req (picked n opt) s).active_task ≡ (
        if denies opt.label
        then elim s.active_task [ none ↦ none | some task ↦ some (record task { canceled = true }) ]
        else s.active_task)
marked_lem denies req n opt s e =
    take_choice-task denies req (picked n opt) s
    ∙ rw (chosen-picked req n opt e) (task s.active_task)
  where
    task :
        (t : Option Task)
        → (if denies opt.label then canceled_task t else t) ≡ (
            if denies opt.label
            then elim t [ none ↦ none | some task ↦ some (record task { canceled = true }) ]
            else t)
    task none = refl
    task (some t) = refl

-- When the worker has asked, its options numbered from one, and its session, of a named project, stands in its context,
-- a click on the card answers the request with the number and the label of the option that was clicked, and no other
-- request; the worker gives that answer to the agent, and marks the active task, where there is one, as cancelled if
-- that option's label is one that denies, and not otherwise.
pub click-answers :
    (denies : String → Bool) (req : PermissionRequest) (fs : Futures) (s : Session) (id : String)
    (contexts : Registry) (ctx : UserContext) (n : ℕ) (opt : PermOption)
    → numbered_from 1 req.options ≡ true
    → get_elem? req.options n ≡ some opt
    → (s.project_name == "") ≡ false
    → get_context id contexts ≡ some ctx
    → lookup s.project_name ctx.sessions ≡ some (set_permission_pending req.options fs s).2
    → IsAnswered denies req fs s id contexts ctx n opt
unfolding answer ask
click-answers denies req fs s id contexts ctx n opt in_order offered named there stands =
    let (h, fs', s') = set_permission_pending req.options fs s in
    let asked = asked_lem req fs s in
    let options : is_nil req.options ≡ false = offered_options n req.options opt offered in
    let found : find (is_option (n + 1)) req.options ≡ some opt =
      ground (arith, numbered_find 1 n req.options opt in_order offered) in
    let same : choice_of (n + 1) s' ≡ picked n opt =
      choice_of-picked n s' opt (rw asked.options in_order) (rw asked.options offered) in
    let clicked =
      card_action-answers id (n + 1) h s.project_name fs' contexts ctx s' there stands named
        (asked-reply req s' fs' h (n + 1) asked (offered_any (n + 1) req.options opt found))
        asked.future in
    let taken : Session = record s' { perm_future = none; perm_options = [] } in
    let ctx' : UserContext = record ctx { sessions = insert s.project_name taken ctx.sessions } in
    record {
      h = h;
      fs' = fs';
      s' = s';
      asked = rw (options, ask) refl;
      waited = asked.waiting_there;
      clicked = handle_card_action id (n + 1) s.project_name fs' contexts;
      clicks = refl;
      futures = λ place.
          clicked.0 place
          ∙ ap
              (λ (c : PermissionChoice).
                if h == place then some (resolved c) else get_elem? fs' place)
              same;
      taken = taken;
      released = refl;
      kept = rw clicked.1 (ground (arith, lookup-insert id id ctx' contexts, equals_refl id));
      given = refl;
      marked =
          marked_lem denies req n opt taken offered
          ∙ ap
              (λ (t : Option Task).
                if denies opt.label
                then elim t [ none ↦ none | some task ↦ some (record task { canceled = true }) ]
                else t)
              (pending-task req fs s);
    }

early_click-silent :
    (id : String) (index : ℕ) (fs : Futures) (contexts : Registry) (ctx : UserContext) (s : Session)
    → get_context id contexts ≡ some ctx
    → lookup s.project_name ctx.sessions ≡ some s
    → (s.project_name == "") ≡ false
    → is_pending fs s ≡ false
    → handle_card_action id index s.project_name fs contexts ≡ (fs, insert id ctx contexts)
unfolding handle_card_action answer_context is_permission_reply
early_click-silent id index fs contexts ctx s there stands named idle = ground arith

idle_asks :
    (req : PermissionRequest) (fs : Futures) (s : Session)
    → is_nil req.options ≡ false
    → is_pending fs s ≡ false
    → ask req fs s ≡ (
      waits (length fs),
      fs ++ waiting ∷ [],
      record s {
        perm_future = some (length fs);
        perm_options = req.options;
        status = waiting_permission;
      },
    )
unfolding ask set_permission_pending cancel_permission
idle_asks req fs s options idle = rw (options, idle, ask) refl

-- The clicks of the time in which the card is sent leave no trace.
record AreSilent (id : String) (ctx : UserContext) (scene out : Scene) : Type 0 where
  futures : out.futures ≡ scene.futures
  context : get_context id out.contexts ≡ some ctx
  cards : out.cards ≡ scene.cards

arrive-AreSilent :
    (id : String) (ctx : UserContext) (s : Session) (clicks : List ℕ) (scene : Scene)
    → get_context id scene.contexts ≡ some ctx
    → lookup s.project_name ctx.sessions ≡ some s
    → (s.project_name == "") ≡ false
    → is_pending scene.futures s ≡ false
    → AreSilent id ctx scene (arrive id s.project_name clicks scene)
unfolding arrive
arrive-AreSilent id ctx s [] scene there stands named idle = record {
  futures = refl;
  context = there;
  cards = refl;
}
arrive-AreSilent id ctx s (index ∷ rest) scene there stands named idle =
    let silent =
      early_click-silent id index scene.futures scene.contexts ctx s there stands named idle in
    let still : get_context id (insert id ctx scene.contexts) ≡ some ctx =
      ground (arith, lookup-insert id id ctx scene.contexts, equals_refl id) in
    let later =
      arrive-AreSilent id ctx s rest (record scene { contexts = insert id ctx scene.contexts })
        still stands named idle in
    rw (silent, arrive)
      (record { futures = later.futures; context = later.context; cards = later.cards })

-- The card is out and the request waits, without an answer.
pub record IsLost (req : PermissionRequest) (id project_name : String) (scene : Scene)
    (out : Option Asked × Scene) : Type 0 where
  pub asked : out.0 ≡ some (waits (length scene.futures))
  pub futures : out.1.futures ≡ scene.futures ++ waiting ∷ []
  pub cards : out.1.cards ≡ scene.cards ++ req ∷ []
  pub s' : Session
  pub stands : session_at id project_name out.1.contexts ≡ some s'
  pub future : s'.perm_future ≡ some (length scene.futures)
  pub options : s'.perm_options ≡ req.options

-- Where a session of a named project that stands in its context waits for nothing and asks for permission with options,
-- every click on the card that arrives before the call that sends the card has returned is lost: it answers nothing,
-- and the request that is registered then waits without an answer.
pub early_click-IsLost :
    (req : PermissionRequest) (id : String) (ctx : UserContext) (s : Session) (clicks : List ℕ)
    (scene : Scene)
    → is_nil req.options ≡ false
    → is_pending scene.futures s ≡ false
    → (s.project_name == "") ≡ false
    → get_context id scene.contexts ≡ some ctx
    → lookup s.project_name ctx.sessions ≡ some s
    → IsLost req id s.project_name scene (request_permission req id s.project_name clicks scene)
unfolding request_permission
early_click-IsLost req id ctx s clicks scene options idle named there stands =
    let sent : Scene = record scene { cards = scene.cards ++ req ∷ [] } in
    let a = arrive-AreSilent id ctx s clicks sent there stands named idle in
    let out : Scene = arrive id s.project_name clicks sent in
    let idle' : is_pending out.futures s ≡ false = rw a.futures idle in
    let asks = idle_asks req out.futures s options idle' in
    let s' : Session = record s {
      perm_future = some (length out.futures);
      perm_options = req.options;
      status = waiting_permission;
    } in
    rw (options, a.context, stands, asks, request_permission)
      (record {
        asked = ap (λ (fs : Futures). some (waits (length fs))) a.futures;
        futures = ap (λ (fs : Futures). fs ++ waiting ∷ []) a.futures;
        cards = a.cards;
        s' = s';
        stands = ground (
          arith,
          lookup-insert id id (record ctx { sessions = insert s.project_name s' ctx.sessions })
              out.contexts,
          lookup-insert s.project_name s.project_name s' ctx.sessions,
          equals_refl id,
          equals_refl s.project_name,
        );
        future = ap (λ (fs : Futures). some (length fs)) a.futures;
        options = refl;
      })
