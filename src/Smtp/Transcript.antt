-- ===== src/Smtp/Transcript.antt =====
-- pkg/reactor/providers/providers.go: the commands that `trySend` sends, in which order.
use event_reactor.Base.{
  Bool, true, false, not, ◌&&◌, Option, none, some, List, [], ◌∷◌, ◌++◌, String, if◌then◌else◌, ◌≡◌,
  ◌⊎◌, refl, sym, ap, ap₂, ◌∙◌, map, append_assoc, append-nil, inl, inr,
}
use event_reactor.Base.Dict.{is_empty}
use event_reactor.Base.Result.{Result, ok, err, Result-cases}
use event_reactor.Smtp.{SmtpParams}
use event_reactor.Smtp.Session.{
  GoError, wrap, Command, dial, start_tls, authenticate, mail, rcpt, start_data, end_data, quit,
  close, write, Dialogue, then_send, settle, resume, ◌>>◌, when, on_error, send, rcpt_all,
  recipients, converse, connect, try_send,
}

abbrev pub when_list : Bool → List Command → List Command
when_list b cs = if b then cs else []

abbrev pub has_login : SmtpParams → Bool
has_login p = not (is_empty p.username) && not (is_empty p.password)

-- The commands of a conversation in which every command is accepted.
abbrev pub script : SmtpParams → String → List Command
script p message =
    when_list p.start_tls (start_tls p.host ∷ [])
    ++ (when_list (has_login p) (authenticate p.username p.password p.host ∷ [])
        ++ (mail p.from
            ∷ (map rcpt (p.to ++ (p.cc ++ p.bcc))
                ++ (start_data ∷ write message ∷ end_data ∷ quit ∷ []))))

-- The commands sent after `log` are the first ones of `cs`, and all of them where all went well.
abbrev pub Extends : List Command → List Command → Result GoError (Unit {0}) × List Command → Type 0
Extends cs log out =
    (sent rest : List Command) × (out.1 ≡ log ++ sent)
    × (sent ++ rest ≡ cs)
    × (out.0 ≡ ok tt → rest ≡ [])

-- The same of a dialogue, whatever came before.
abbrev pub Follows : List Command → Dialogue (Unit {0}) → Type 0
Follows cs d = (log : List Command) → Extends cs log (d log)

resume-Extends :
    (cs ds log : List Command) (k : Dialogue (Unit {0}))
    (out : Result GoError (Unit {0}) × List Command)
    → Follows ds k
    → Extends cs log out
    → Extends (cs ++ ds) log (resume (λ _. k) out)
resume-Extends cs ds log k (ok u, log') g (sent, rest, e, whole, all) =
    let (sent', rest', e', whole', all') = g log' in
    let same : sent ≡ cs = sym (append-nil sent) ∙ ap (λ l. sent ++ l) (sym (all refl)) ∙ whole in
    (
      sent ++ sent',
      rest',
      e' ∙ ap (λ l. l ++ sent') e ∙ append_assoc log sent sent',
      append_assoc sent sent' rest' ∙ ap₂ (λ l r. l ++ r) same whole',
      all',
    )
resume-Extends cs ds log k (err x, log') g (sent, rest, e, whole, all) =
    (sent, rest ++ ds, e, sym (append_assoc sent rest ds) ∙ ap (λ l. l ++ ds) whole, λ h. cc)

bind-Follows :
    (cs ds : List Command) (m k : Dialogue (Unit {0}))
    → Follows cs m
    → Follows ds k
    → Follows (cs ++ ds) (m >> k)
bind-Follows cs ds m k f g log = resume-Extends cs ds log k (m log) g (f log)

when-Follows :
    (b : Bool) (cs : List Command) (m : Dialogue (Unit {0}))
    → Follows cs m
    → Follows (when_list b cs) (when b m)
when-Follows true cs m f = f
when-Follows false cs m f = λ log. ([], [], sym (append-nil log), refl, λ _. refl)

module _ (answer : List Command → Command → Option GoError) where
  send-Follows :
      (report : GoError → GoError) (c : Command) → Follows (c ∷ []) (send answer report c)
  unfolding send
  send-Follows report c log = (c ∷ [], [], refl, refl, λ _. refl)

  rcpt_all-Follows : (rs : List String) → Follows (map rcpt rs) (rcpt_all answer rs)
  unfolding rcpt_all
  rcpt_all-Follows [] = λ log. ([], [], sym (append-nil log), refl, λ _. refl)
  rcpt_all-Follows (r ∷ rs) =
      bind-Follows (rcpt r ∷ []) (map rcpt rs) _ _ (send-Follows _ (rcpt r)) (rcpt_all-Follows rs)

  -- After a failed write the message is ended all the same.
  settle-Extends :
      (message : String) (k : Dialogue (Unit {0})) (log : List Command) (report : GoError → GoError)
      (o : Option GoError)
      → Follows (end_data ∷ quit ∷ []) k
      → Extends (write message ∷ end_data ∷ quit ∷ []) log (
          resume
            (λ _. k)
            (then_send end_data (settle answer report o, log ++ (write message ∷ []))))
  settle-Extends message k log report none f =
      let (sent, rest, e, whole, all) = f (log ++ (write message ∷ [])) in
      (
        write message ∷ sent,
        rest,
        e ∙ append_assoc log (write message ∷ []) sent,
        ap (λ l. write message ∷ l) whole,
        all,
      )
  settle-Extends message k log report (some x) f = (
    write message ∷ end_data ∷ [],
    quit ∷ [],
    append_assoc log (write message ∷ []) (end_data ∷ []),
    refl,
    λ h. cc,
  )

  deliver-Follows :
      (message : String) (k : Dialogue (Unit {0}))
      → Follows (end_data ∷ quit ∷ []) k
      → Follows
          (write message ∷ end_data ∷ quit ∷ [])
          (on_error end_data (send answer (wrap "writing message") (write message)) >> k)
  unfolding send
  deliver-Follows message k f log =
      settle-Extends message k log (wrap "writing message") (answer log (write message)) f

  converse-Follows :
      (p : SmtpParams) (message : String) → Follows (script p message) (converse answer p message)
  unfolding converse
  converse-Follows p message =
      bind-Follows (when_list p.start_tls _) _ _ _
        (when-Follows p.start_tls _ _ (send-Follows _ (start_tls p.host)))
        (bind-Follows (when_list (has_login p) _) _ _ _
          (when-Follows (has_login p) _ _
            (send-Follows _ (authenticate p.username p.password p.host)))
          (bind-Follows (mail p.from ∷ []) _ _ _ (send-Follows _ (mail p.from)) (
            bind-Follows (map rcpt (recipients answer p)) _ _ _
              (rcpt_all-Follows (recipients answer p))
              (bind-Follows (start_data ∷ []) _ _ _ (send-Follows _ start_data) (
                deliver-Follows message _ (
                  bind-Follows (end_data ∷ []) (quit ∷ []) _ _ (send-Follows _ end_data)
                    (send-Follows _ quit)))))))

  -- Over a connection that an injected dialer has made, whatever the server answers: the
  -- commands that are sent are the first ones of STARTTLS if it is asked for, AUTH if there are
  -- a user name and a password, MAIL FROM, RCPT TO for each of to, cc and bcc, DATA, the
  -- message, its end and QUIT, all of them unless an error is returned, and then the connection
  -- is closed.
  pub try_send-script :
      (p : SmtpParams) (message : String)
      → answer [] (dial p.host p.port) ≡ none
      → (sent rest : List Command) × (sent ++ rest ≡ script p message)
        × ((try_send answer true p message []).1 ≡ dial p.host p.port ∷ (sent ++ (close ∷ [])))
        × ((rest ≡ []) ⊎ ((e : GoError) × ((try_send answer true p message []).0 ≡ err e)))
  unfolding try_send connect send
  try_send-script p message connected =
      let (sent, rest, e, whole, all) = converse-Follows p message (dial p.host p.port ∷ []) in
      (
        sent,
        rest,
        whole,
        rw (connected, try_send) (ap (λ l. l ++ (close ∷ [])) e),
        elim (Result-cases (try_send answer true p message []).0) [
          | inl (u, h) ↦ inl (all (rw connected at h))
          | inr failed ↦ inr failed
        ],
      )
