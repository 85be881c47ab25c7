-- ===== src/Approval/Tests.antt =====
-- A registrant who was rejected, with no role.
use generic_ecommerce_store.Common.{◌≡◌, some, [], ◌∷◌, refl, true, false}
use generic_ecommerce_store.Approval.{
  Registrant, Registry, answered, find_user, approve, approve_user, unreject, unreject_user,
  formatted,
}
use generic_ecommerce_store.Common.Lists.{IsIn}
use generic_ecommerce_store.Approval.{get_rejected_users}
use generic_ecommerce_store.Approval.Decisions.{approve_user-rejected}

abbrev ann : Registrant
ann = record {
  id = 4;
  username = "ann";
  approved = false;
  rejected = true;
  rejection_note = some "who?";
  created_at = 10;
}

abbrev registry : Registry
registry = record {
  users = ann ∷ record ann { id = 5; rejected = false } ∷ [];
  roles = record { id = 1; name = "CUSTOMER" } ∷ [];
  user_roles = [];
  notices = [];
}

abbrev after : Registry
after = (approve_user 4 registry).1

abbrev last : Registry
last = (unreject_user 4 after).1

approve_user-rejected_example :
    (find_user after 4 ≡ some (approve ann))
    × ((approve ann).approved ≡ true)
    × IsIn (formatted after (approve ann)) (get_rejected_users after)
    × ((unreject_user 4 after).0 ≡ answered (formatted last (unreject ann)))
    × (find_user last 4 ≡ some (unreject ann))
    × ((unreject ann).approved ≡ false)
unfolding approve_user
approve_user-rejected_example =
    approve_user-rejected registry 4 ann (approve ann, some "CUSTOMER" ∷ []) refl refl refl
