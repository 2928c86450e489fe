-- ===== src/Acl/Tests.antt =====
-- Runs of access control, and its theorems at concrete inputs.
use next_me.Common.{◌>>=◌, ◌≡◌, refl, true, none, some, [], ◌∷◌, arith, ok, ◌⊎◌, lookup}
use next_me.Acl.Schema.{owner, collaborator, pending, approved, rejected, AclUser, AppRow}
use next_me.Acl.Db.{AclDb, row_to_application}
use next_me.Acl.Db.Users
use next_me.Acl.Db.Applications
use next_me.Acl.Db.Invariant.{IsValid}
use next_me.Acl.Manager
use next_me.Acl.Manager.{
  AclManager, can_review, get_application, approve, reject, get_role, add_user, remove_user,
  list_pending, get_reviewers_for_role,
}
use next_me.Acl.Manager.Roles.{role_in, stored_role}
use next_me.Acl.Manager.Reviews.{approve-grants, row_of}
use next_me.Acl.Manager.Calls.{Call, run}
use next_me.Acl.Manager.Final.{run-IsValid, processed_is_final}
use next_me.Acl.Commands.{AclCommand, handle_acl_command, handle_acl_approve}
use next_me.Acl.Cards
use next_me.Acl.Cards.{
  acl_review, decided_card, granted, has_approved, decide, handle_acl_card_action,
}
use next_me.Acl.Cards.Grants.{IsGranted, card_action-IsFair}
use next_me.Acl.Commands.Escalation.{command_makes_no_owner}

abbrev olga : AclUser
olga = record {
  open_id = "ou_olga";
  role = owner;
  display_name = "Olga";
  added_by = "ou_root";
  added_at = 5;
}

abbrev asked : AppRow
asked = record {
  id = 1;
  applicant_id = "ou_carl";
  applicant_name = "Carl";
  requested_role = collaborator;
  status = pending;
  requested_at = 9;
  processed_at = none;
  processed_by = none;
}

abbrev db : AclDb
db = record { is_open = true; users = olga ∷ []; applications = asked ∷ []; sequence = 1 }

abbrev manager : AclManager
manager = record { db = db; admin_users = "ou_root" ∷ [] }

db-IsValid : IsValid db
db-IsValid = record {
  stored_roles = (refl, tt);
  one_row = λ id. ground arith;
  requested_roles = (refl, tt);
  given_ids = omega arith;
  one_pending = λ id. ground arith;
}

second_application :
    (Manager.create_application 10 "ou_carl" "Carl" owner manager).0
    ≡ ok (none, some (row_to_application asked))
unfolding Manager.create_application Applications.get_pending_application row_to_application ◌>>=◌
second_application = refl

approve-grants_example : role_in (approve 10 11 1 "ou_olga" manager).1 "ou_carl" ≡ some collaborator
approve-grants_example =
    (approve-grants 10 11 1 "ou_olga" "ou_carl" manager asked refl refl refl (λ e. cc)).1

run-IsValid_example :
    IsValid (run manager (Call.approves 10 11 1 "ou_olga" ∷ Call.removes "ou_olga" ∷ [])).db
run-IsValid_example =
    run-IsValid manager (Call.approves 10 11 1 "ou_olga" ∷ Call.removes "ou_olga" ∷ []) db-IsValid

abbrev done : AppRow
done = record asked { status = rejected; processed_by = some "ou_olga"; processed_at = some 10 }

abbrev after : AclManager
after = record manager { db = record db { applications = done ∷ [] } }

processed_is_final_example :
    row_of 1 (run after (Call.approves 12 13 1 "ou_root" ∷ [])).db ≡ some done
processed_is_final_example =
    (processed_is_final 1 14 15 "ou_root" done after (Call.approves 12 13 1 "ou_root" ∷ []) refl
      (λ e. cc)).0

command_makes_no_owner_example : stored_role "ou_olga" manager.db ≡ some owner
unfolding handle_acl_command handle_acl_approve Manager.get_application Manager.approve
    Applications.get_application Applications.update_application_status Users.add_user
    row_to_application can_review ◌>>=◌
command_makes_no_owner_example =
    command_makes_no_owner (λ t. t) 10 11 (AclCommand.approve 1) owner "ou_olga" "ou_olga" manager
      (λ e. cc) refl

abbrev desk : Cards.Desk
desk = record { manager = manager; notified = (1, "om_5" ∷ []) ∷ []; sent = [] }

-- The owner approves by the button: the card of the request shows it, and both are told.
approved_by_card :
    (handle_acl_card_action
      (λ id. none)
      10
      11
      "ou_olga"
      (acl_review (some 1) "approved")
      desk).1.sent
    ≡ decided_card "om_5" 1 approved
      ∷ granted "ou_carl" collaborator
      ∷ has_approved "ou_olga" 1
      ∷ []
unfolding handle_acl_card_action get_role Users.get_user get_application
    Applications.get_application row_to_application can_review decide approve
    Applications.update_application_status Users.add_user lookup ◌>>=◌
approved_by_card = refl

card_action-IsFair_example :
    let after =
      (handle_acl_card_action
        (λ id. none)
        10
        11
        "ou_olga"
        (acl_review (some 1) "approved")
        desk).1.manager in
    (stored_role "ou_carl" after.db ≡ none)
    ⊎ IsGranted manager "ou_olga" (stored_role "ou_carl" after.db)
card_action-IsFair_example =
    card_action-IsFair (λ id. none) 10 11 "ou_olga" "ou_carl" (acl_review (some 1) "approved") desk
