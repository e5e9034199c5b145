-- ===== src/Smtp.antt =====
-- The replies of the SMTP servers: go-smtp's SMTPError and EnhancedCode as the handlers of
-- internal/smtpd and internal/submission build them. `none` is a handler that returned nil.
use Prim.Native.String.{String}
use xeron_mx.Prelude.{ℕ, ◌≤◌, ◌<◌, Bool, ◌&&◌, leb, ltb}

pub record EnhancedCode : Type 0 where
  pub class : ℕ
  pub subject : ℕ
  pub detail : ℕ

pub record SmtpError : Type 0 where
  pub code : ℕ
  pub enhanced : EnhancedCode
  pub message : String

abbrev pub smtp_error : ℕ → ℕ → ℕ → ℕ → String → SmtpError
smtp_error code class subject detail message = record {
  code = code;
  enhanced = record { class = class; subject = subject; detail = detail };
  message = message;
}

abbrev pub temp_error : String → SmtpError
temp_error = smtp_error 451 4 3 0

-- The sender keeps the message and tries again.
abbrev pub IsTemporary : SmtpError → Type 0
IsTemporary e = (400 ≤ e.code) × (e.code < 500)

-- Code >= 500 && Code < 600
abbrev pub is_permanent : ℕ → Bool
is_permanent code = leb 500 code && ltb code 600
