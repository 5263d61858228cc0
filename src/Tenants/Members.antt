-- ===== src/Tenants/Members.antt =====
-- src/octw/orchestrator/tenant_service.py: the members of a tenant and their roles.
use octw.Prelude.{Text, codes, Option, none, some, List, [], ◌∷◌, ◌++◌, ◌==◌, nat_eq, keep}
use octw.Exec.{Result, ok, err, ⊤, Op, pure, lift, gets, modify, ◌>>=◌, ◌>>◌}
use octw.Models.Tenant.{Uuid, Role, Member, role_value}
use octw.Models.Secret.{member_add, member_remove}
use octw.Uuid.{uuid_text}
use octw.Db.{
  Session, UserRow, MembershipRow, in_db, add_user, add_membership, delete_membership_row,
  users_by_email, memberships_of, scalar_one_or_none,
}
use octw.Vault.Envelope.{Crypto, uuid4}
use octw.Tenants.Rows.{emit_audit}

module _ (c : Crypto) where
  -- `_ensure_membership`, and the membership of `add_member`
  unfoldable pub ensure_membership : Uuid → Uuid → Role → Op Session ⊤
  ensure_membership tenant_id user_id role = do
    membership_id ← uuid4 c
    now ← gets (λ s. s.now)
    in_db (
        add_membership (record {
          membership_id = membership_id;
          tenant_id = tenant_id;
          user_id = user_id;
          role = role;
          created_at = now;
        }))

  unfoldable pub create_user : Text → Op Session Uuid
  create_user email = do
    user_id ← uuid4 c
    now ← gets (λ s. s.now)
    in_db (add_user (record { user_id = user_id; email = email; created_at = now }))
    pure user_id

  unfoldable pub id_or_create : Text → Option UserRow → Op Session Uuid
  id_or_create email (some row) = pure row.user_id
  id_or_create email none = create_user email

  unfoldable pub add_member : Uuid → Text → Role → Option Uuid → Op Session Member
  add_member tenant_id email role actor_user_id = do
    rows ← gets (λ s. users_by_email email s.db)
    found ← lift (scalar_one_or_none rows)
    user_id ← id_or_create email found
    ensure_membership tenant_id user_id role
    emit_audit c member_add (some tenant_id) actor_user_id
        (some ((codes "email", email) ∷ (codes "role", role_value role) ∷ []))
    now ← gets (λ s. s.now)
    pure (record {
      user_id = user_id;
      tenant_id = tenant_id;
      email = email;
      role = role;
      created_at = now;
    })

  unfoldable pub remove_found_member :
      Uuid → Uuid → Option Uuid → Option MembershipRow → Op Session ⊤
  remove_found_member tenant_id user_id actor_user_id none = pure tt
  remove_found_member tenant_id user_id actor_user_id (some row) = do
    modify (λ s. record s { db = delete_membership_row tenant_id user_id s.db })
    emit_audit c member_remove (some tenant_id) actor_user_id
        (some ((codes "removed_user_id", uuid_text user_id) ∷ []))

  unfoldable pub remove_member : Uuid → Uuid → Option Uuid → Op Session ⊤
  remove_member tenant_id user_id actor_user_id = do
    rows ← gets (λ s. memberships_of tenant_id user_id s.db)
    row ← lift (scalar_one_or_none rows)
    remove_found_member tenant_id user_id actor_user_id row

-- The pairs of a membership with its user.
abbrev with_user : MembershipRow → List UserRow → List Member
with_user m [] = []
with_user m (u ∷ users) =
    record {
      user_id = m.user_id;
      tenant_id = m.tenant_id;
      email = u.email;
      role = m.role;
      created_at = m.created_at;
    }
    ∷ with_user m users

unfoldable pub join_users : List UserRow → List MembershipRow → List Member
join_users users [] = []
join_users users (m ∷ ms) =
    with_user m (keep (λ u. u.user_id == m.user_id) users) ++ join_users users ms

unfoldable pub list_members : Uuid → Op Session (List Member)
unfolding join_users
list_members tenant_id =
    gets (λ s. join_users s.db.users (keep (λ m. m.tenant_id == tenant_id) s.db.memberships))

abbrev pub role_of : Option MembershipRow → Option Role
role_of none = none
role_of (some row) = some row.role

unfoldable pub check_membership : Uuid → Uuid → Session → Result (Option Role)
check_membership tenant_id user_id s =
    elim (scalar_one_or_none (memberships_of tenant_id user_id s.db)) [
      | err e ↦ err e
      | ok row ↦ ok (role_of row)
    ]
