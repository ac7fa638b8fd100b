-- ===== src/Smtp/Session.antt =====
-- pkg/reactor/providers/providers.go: `trySend`, as a dialogue with a dialer and an SMTP server.
-- Whatever the other side answers is the argument `answer`: a function of the commands so far.
use event_reactor.Base.{
  Bool, true, false, not, ◌&&◌, Option, none, some, List, [], ◌∷◌, ◌++◌, String, if◌then◌else◌,
}
use event_reactor.Base.Dict.{is_empty}
use event_reactor.Base.Text.{◌<>◌}
use event_reactor.Base.Result.{Result, ok, err}
use event_reactor.Smtp.{SmtpParams}

-- An `error`: its text, and whether a net.Error is in its chain.
pub record GoError : Type 0 where
  pub text : String
  pub is_net : Bool

-- fmt.Errorf("prefix: %w", e)
abbrev pub wrap : String → GoError → GoError
wrap prefix e = record e { text = prefix <> ": " <> e.text }

pub data Command : Type 0 where
  -- dialer.DialContext or s.Dialer.Dial, smtp.NewClient, and closing a bare connection
  dial : (host port : String) → Command
  greet close_conn : Command
  start_tls : (server_name : String) → Command
  authenticate : (username password host : String) → Command
  mail rcpt : String → Command
  start_data end_data quit close : Command
  write : String → Command

-- The dialogue so far, and a result.
abbrev pub Dialogue : Type 0 → Type 0
Dialogue A = List Command → Result GoError A × List Command

abbrev pub resume :
    {A B : Type 0}
    → (A → Dialogue B)
    → Result GoError A × List Command
    → Result GoError B × List Command
resume f (ok a, log) = f a log
resume f (err e, log) = (err e, log)

infixl 5 ◌>>=◌ ◌>>◌
abbrev pub ◌>>=◌ : {A B : Type 0} → Dialogue A → (A → Dialogue B) → Dialogue B
◌>>=◌ m f log = resume f (m log)

abbrev pub ◌>>◌ : {B : Type 0} → Dialogue (Unit {0}) → Dialogue B → Dialogue B
m >> k = m >>= λ _. k

abbrev pub done : Dialogue (Unit {0})
done log = (ok tt, log)

-- A step that is made only under a condition.
abbrev pub when : Bool → Dialogue (Unit {0}) → Dialogue (Unit {0})
when b m = if b then m else done

-- A last command that is sent whatever the result, and whose answer is not read.
abbrev pub finally : {A : Type 0} → Command → Dialogue A → Dialogue A
finally c m log = let (r, log') = m log in (r, log' ++ (c ∷ []))

-- A command that is sent after an error, and whose answer is not read.
abbrev pub then_send :
    {A : Type 0} → Command → Result GoError A × List Command → Result GoError A × List Command
then_send c (ok a, log) = (ok a, log)
then_send c (err e, log) = (err e, log ++ (c ∷ []))

abbrev pub on_error : {A : Type 0} → Command → Dialogue A → Dialogue A
on_error c m log = then_send c (m log)

module _ (answer : List Command → Command → Option GoError) where
  -- The branches on an answer.
  abbrev pub settle : (GoError → GoError) → Option GoError → Result GoError (Unit {0})
  settle report none = ok tt
  settle report (some e) = err (report e)

  unfoldable pub send : (GoError → GoError) → Command → Dialogue (Unit {0})
  send report c log = (settle report (answer log c), log ++ (c ∷ []))

  unfoldable pub rcpt_all : List String → Dialogue (Unit {0})
  rcpt_all [] = done
  rcpt_all (r ∷ rs) = do send (wrap ("RCPT TO " <> r)) (rcpt r); rcpt_all rs

  abbrev pub recipients : SmtpParams → List String
  recipients p = p.to ++ (p.cc ++ p.bcc)

  -- What follows a connection; `message` is what `smtpBuildMessage` gives.
  unfoldable pub converse : SmtpParams → String → Dialogue (Unit {0})
  converse p message = do
    when p.start_tls (send (wrap "starting TLS") (start_tls p.host))
    when (not (is_empty p.username) && not (is_empty p.password))
        (send (wrap "authenticating") (authenticate p.username p.password p.host))
    send (wrap "MAIL FROM") (mail p.from)
    rcpt_all (recipients p)
    send (wrap "DATA") start_data
    on_error end_data (send (wrap "writing message") (write message))
    send (wrap "closing message") end_data
    send (λ e. e) quit

  -- With the net dialer a client is made from the connection.
  unfoldable pub connect : Bool → SmtpParams → Dialogue (Unit {0})
  connect true p = send (wrap "dialing SMTP server") (dial p.host p.port)
  connect false p = do
    send (wrap "dialing SMTP server") (dial p.host p.port)
    on_error close_conn (send (wrap "creating SMTP client") greet)

  -- `injected` says whether the provider has a dialer of its own.
  unfoldable pub try_send : Bool → SmtpParams → String → Dialogue (Unit {0})
  try_send injected p message = do connect injected p; finally close (converse p message)
