-- ===== src/Http.antt =====
-- What both crates use of the `http` crate's `StatusCode`.
use rpceth.Base.{ℕ, Bool, leb, ltb, ◌&&◌}

-- `StatusCode::is_success`
unfoldable pub is_success : ℕ → Bool
is_success status = leb 200 status && ltb status 300
