-- ===== src/Core/Dispatch/Tests.antt =====
-- Runs of `dispatch`, and its theorems at concrete inputs.
use next_me.Common.{
  String, Dict, refl, true, false, none, some, [], ◌∷◌, ◌>>=◌, arith, lookup, insert,
  string_comparable, ◌==◌,
}
use next_me.Acl.Schema.{owner, AclUser}
use next_me.Acl.Db.{AclDb}
use next_me.Acl.Db.Users.{get_user}
use next_me.Acl.Manager.{AclManager, get_role}
use next_me.Config.Schema.{AppConfig, Project, blank, get_binding, default_project}
use next_me.Core.Types.{Task}
use next_me.Core.Session.{Session, new_session, get_active_session, get_or_create_session}
use next_me.Core.Routing.{session_for}
use next_me.Core.Replies.{is_permission_reply}
use next_me.Core.Dispatcher.{accept}
use next_me.Core.Commands.{Desk, Words, Setting}
use next_me.Core.Dispatch.{Reading, Bot, dispatch, is_open, enqueue_task, proceed, handle}
use next_me.Skills
use next_me.Skills.{Skill}
use next_me.Core.Dispatch.Skills.{Outer, skill_command}
use next_me.Core.Dispatch.Skills.Attendees.{IsQueued, skill_command-IsQueued}
use next_me.Core.Dispatch.Hooks
use next_me.Core.Dispatch.Hooks.{dispatch_hook_task}
use next_me.Core.Dispatch.Hooks.Denied.{OnlyOpens, hook_denied}
use next_me.Core.Dispatch.Gate.{IsUntouched, dispatch_denied}
use next_me.Core.Dispatch.Queued.{Settled, dispatch_queued}

abbrev olga : AclUser
olga = record {
  open_id = "ou_olga";
  role = owner;
  display_name = "Olga";
  added_by = "ou_root";
  added_at = 5;
}

abbrev db : AclDb
db = record { is_open = true; users = olga ∷ []; applications = []; sequence = 0 }

abbrev manager : AclManager
manager = record { db = db; admin_users = "ou_root" ∷ [] }

abbrev project : Project
project = record {
  name = "bot";
  path = "/srv/bot";
  executor = "claude";
  executor_args = [];
  task_timeout_seconds = 60;
}

abbrev config : AppConfig
config = record { projects = project ∷ []; bindings = [] }

abbrev desk : Desk
desk = record {
  dispatcher = record {
    store = record { disk = none; state = some blank; dirty = false };
    limit = 3;
    parked = [];
  };
  context = record { context_id = "oc_1:ou_olga"; active_project = ""; sessions = [] };
  futures = [];
  bindings = [];
  runtimes = record { runtimes = []; stopped = [] };
  agent_ids = [];
  cancels = [];
  memory_manager = none;
}

abbrev setting : Setting
setting = record {
  config = config;
  salt = "c3d4";
  capacity = 10;
  similar = λ a b. a == b;
  dir_for = λ id. id;
  stops = λ runtime. true;
  chat_id = "oc_1";
  user_id = "ou_olga";
  now = 5;
}

abbrev bot : Bot
bot = record { desk = desk; acl_manager = some manager; workers = [] }

abbrev asked : Task
asked = record {
  id = "t-1";
  content = "fix the build";
  session_id = "oc_1:ou_olga";
  message_id = "om_1";
  chat_type = "p2p";
  timeout = 28800;
  canceled = false;
  was_queued = false;
  mentions = [];
  user_id = "ou_olga";
  thread_root_id = "";
}

abbrev reading : Reading
reading = record {
  lowered = "fix the build";
  words = record { command = "fix"; arg = "the build"; sub_cmd = "the"; sub_arg = "build" };
  is_command = false;
  index = none;
}

abbrev stranger : Task
stranger = record asked { user_id = "ou_eve" }

dispatch_denied_example : IsUntouched bot (dispatch setting reading stranger bot).1
unfolding is_open get_role ◌>>=◌ get_user
dispatch_denied_example =
    dispatch_denied setting reading stranger bot manager refl refl (λ e. absurd (ground arith))

dispatch_queued_example : Settled asked 0 (dispatch setting reading asked bot).1
unfolding dispatch is_open get_role enqueue_task accept ◌>>=◌ get_user proceed session_for
    get_binding lookup get_active_session default_project get_or_create_session insert handle
    is_permission_reply
dispatch_queued_example = dispatch_queued setting reading asked bot 0 refl

abbrev summary : Skill
summary = record {
  meta = record {
    name = "summary";
    trigger = "sum";
    description = "";
    tools_allowlist = [];
    tools_denylist = [];
  };
  template = "Sum up.";
  source = "nextme";
}

abbrev outer : Outer
outer = record {
  text = record {
    frontmatter = λ t. none;
    key_value = λ t. none;
    inline_list = λ t. none;
    lines = λ t. [];
    split_commas = λ t. [];
    strip = λ t. t;
    strip_quotes = λ t. t;
    lower = λ t. t;
    starts_with = λ p t. false;
    replace = λ old new t. t;
    contains = λ p t. false;
  };
  leb_text = λ a b. true;
  partition = λ t. ("sum", "the week");
  new_id = "t-2";
}

abbrev sum_up : Words
sum_up = record { command = "/skill"; arg = "sum the week"; sub_cmd = "sum"; sub_arg = "the week" }

abbrev at_work : Session
at_work = new_session "c3d4" 10 "oc_1:ou_olga" project

skill_command-IsQueued_example :
    IsQueued outer setting summary "the week" asked at_work
      (skill_command outer setting (("sum", summary) ∷ []) sum_up asked at_work bot).1
unfolding new_session Skills.get lookup
skill_command-IsQueued_example =
    skill_command-IsQueued outer setting (("sum", summary) ∷ []) sum_up asked at_work bot summary
      refl refl refl

abbrev hooks : Hooks.Outer
hooks = record {
  strip = λ t. t;
  contains = λ part t. false;
  read_text = λ path. some "Deploy.";
  reading = λ t. record reading { lowered = "deploy." };
  random = "0a1b2c3d";
}

abbrev click : Dict String String
click =
    ("hook", "deploy")
    ∷ ("operator_id", "ou_eve")
    ∷ ("chat_id", "oc_1")
    ∷ ("message_id", "om_1")
    ∷ []

hook_denied_example : OnlyOpens setting bot (dispatch_hook_task hooks setting click bot).1
unfolding lookup is_open get_role ◌>>=◌ get_user
hook_denied_example =
    hook_denied hooks setting click bot manager refl refl (λ text e. absurd (ground arith))
