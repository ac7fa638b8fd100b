-- ===== src/Smtp/Mail.antt =====
-- pkg/reactor/providers/providers.go: `smtpBuildMessage`. The formatted date and the nanoseconds that
-- the clock gives are arguments.
use event_reactor.Base.{List, [], ◌∷◌, ◌++◌, String, if◌then◌else◌}
use event_reactor.Base.Text.{◌<>◌, join}
use event_reactor.Smtp.{SmtpParams, is_nil}

-- The lines of the header, without their ends.
unfoldable pub header_lines : (date nano : String) → SmtpParams → List String
header_lines date nano p =
    ("Date: " <> date)
    ∷ ("Message-ID: <" <> nano <> "." <> p.from <> ">")
    ∷ ("From: " <> p.from)
    ∷ ("To: " <> join ", " p.to)
    ∷ ((if is_nil p.cc then [] else ("Cc: " <> join ", " p.cc) ∷ [])
        ++ (("Subject: " <> p.subject)
            ∷ ("Content-Type: " <> p.content_type <> "; charset=UTF-8")
            ∷ "MIME-Version: 1.0"
            ∷ []))

unfoldable pub write_lines : List String → String
write_lines [] = ""
write_lines (l ∷ ls) = l <> "\r\n" <> write_lines ls

unfoldable pub build_message : (date nano : String) → SmtpParams → String
unfolding write_lines header_lines
build_message date nano p = write_lines (header_lines date nano p) <> "\r\n" <> p.body
