-- ===== src/Auth/Passwords.antt =====
-- Password hashing: pwdlib's recommended hasher (argon2) is not part of the repository, so it is a
-- parameter. The salt that it draws is an argument.
use fleet_tracking_backend.Prelude.{ℕ, String, ◌≡◌, Bool, true}

pub record Hasher : Type 0 where
  pub hash : ℕ → String → String
  pub verify : String → String → Bool
  -- A hash is verified by the password that it was made from.
  pub verify-hash : (salt : ℕ) (password : String) → verify password (hash salt password) ≡ true

unfoldable pub hash_password : Hasher → ℕ → String → String
hash_password h salt password = h.hash salt password

unfoldable pub verify_password : Hasher → String → String → Bool
verify_password h password hashed = h.verify password hashed
