-- ===== src/Error.antt =====
-- crates/netmux-core/src/error.rs. An operating-system error is its description.
use netmux.Prelude.{◌++◌}
use netmux.Text.{Text, text}

pub data NetmuxError : Type 0 where
  unsupported : Text → NetmuxError
  permission : Text → NetmuxError
  io : Text → Text → NetmuxError
  config : Text → NetmuxError
  not_found : Text → NetmuxError
  internal : Text → NetmuxError
  persist : Text → NetmuxError

-- `Result<T, NetmuxError>`
pub data Result {ℓ} (A : Type ℓ) : Type ℓ where
  ok : A → Result A
  err : NetmuxError → Result A

-- `From<std::io::Error>`
pub of_io_error : Text → NetmuxError
of_io_error source = io (text "io error") source

-- `to_string`, by the formats of the variants.
unfoldable pub display : NetmuxError → Text
display (unsupported m) = text "unsupported on this platform: " ++ m
display (permission m) = text "permission denied: " ++ m
display (io context source) = context ++ (text ": " ++ source)
display (config m) = text "invalid configuration: " ++ m
display (not_found m) = text "no such interface: " ++ m
display (internal m) = text "internal error: " ++ m
display (persist m) = text "configuration persistence error: " ++ m
