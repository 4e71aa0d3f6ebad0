-- ===== src/Tests/Authorization.antt =====
-- One member of one tenant with one capability.
use eclipse_erp.Base.{ℕ, ◌≡◌, refl, true, false}
use eclipse_erp.Text.{Text, codes, text_eq, starts_with}
use eclipse_erp.Dict.{lookup, insert, erase}
use eclipse_erp.Authorization.Capabilities.{is_capability, capability_ids}
use eclipse_erp.Authorization.Service.{
  MembershipInput, AuthorizationInput, GrantInput, Store, membership_key, grant_key, has_grant,
  add_grant, authorize, member, add_member, set_status, suspend_member, remove_member, grant,
  grantee,
}
use eclipse_erp.Authorization.Decision.{succeeds, allows, request, key_of, remove_member-forgets}
use eclipse_erp.Authorization.Members.{
  empty, IsReachable, start, step, added, granted, IsConsistent, IsReachable-IsConsistent,
}

abbrev ann : MembershipInput
ann = record { user_account_id = codes "ann"; tenant_id = codes "t" }

abbrev post : Text
post = codes "accounting.journal.post"

abbrev posting : GrantInput
posting = record { user_account_id = codes "ann"; tenant_id = codes "t"; capability = post }

abbrev joined : Store
joined = (add_member ann empty).1

abbrev working : Store
working = (grant posting joined).1

running : ℕ
unfolding add_member set_status member remove_member grant authorize is_capability capability_ids
    membership_key has_grant add_grant lookup insert erase text_eq starts_with
running = 0

allowed_test : allows (authorize (request (codes "s") ann post) working) ≡ true
unfolding running
allowed_test = refl

again_test : succeeds (grant posting working).0 ≡ false
unfolding running
again_test = refl

grants_it : succeeds (grant posting joined).0 ≡ true
unfolding running
grants_it = refl

suspends : succeeds (suspend_member ann working).0 ≡ true
unfolding running
suspends = refl

removes : succeeds (remove_member ann working).0 ≡ true
unfolding running
removes = refl

remove_member-forgets_example :
    (allows (authorize (request (codes "s") ann post) (remove_member ann working).1) ≡ false)
    × (succeeds (add_member ann (remove_member ann working).1).0 ≡ true)
    × (allows (
          authorize (request (codes "s") ann post) (add_member ann (remove_member ann working).1).1)
        ≡ false)
remove_member-forgets_example = remove_member-forgets (codes "s") ann post working removes

-- A request for the right to close a period.
abbrev closing : AuthorizationInput
closing = request (codes "s") ann (codes "accounting.period.close")

different :
    text_eq
      (grant_key (membership_key (codes "ann") (codes "t")) closing.capability)
      (grant_key (key_of (grantee posting)) post)
    ≡ false
unfolding running
different = refl

reached : IsReachable working
reached = step (step start (added ann)) (granted posting)

IsReachable-IsConsistent_example : IsConsistent working
IsReachable-IsConsistent_example = IsReachable-IsConsistent working reached
