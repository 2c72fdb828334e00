-- ===== src/Rbac/User.antt =====
-- rbac/user.go: who may read and change a user.
use tensor.Prelude.{Bool, true, false, ◌||◌, string_eq, if◌then◌else◌, ◌==◌}
use tensor.Models.{User}

unfoldable pub read : User → User → Bool
read user object =
    if user.is_super_user || user.is_system_auditor || user.id == object.id then true else false

unfoldable pub write : User → User → Bool
write user object =
    if user.is_super_user || user.is_system_auditor || user.id == object.id then true else false

unfoldable pub write_special : User → User → Bool
write_special user object = if user.is_super_user || user.is_system_auditor then true else false
