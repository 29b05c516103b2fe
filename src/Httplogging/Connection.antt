-- ===== src/Httplogging/Connection.antt =====
-- `connect` of httplogging/amqp.go, and the goroutines that it leaves behind.
use servicegateway.Prelude.{
  ℕ, ◌≡◌, refl, ap, Bool, true, false, List, [], ◌∷◌, Option, some, if◌then◌else◌,
}

-- How far a call of `connect` comes: `amqp.Dial` fails; or the connection `n` is open, and `Channel` fails, or
-- `ExchangeDeclare` fails, or all succeed.
pub data Attempt : Type 0 where
  dial_fails : Attempt
  channel_fails : ℕ → Attempt
  declare_fails : ℕ → Attempt
  connects : ℕ → Attempt

-- The connection whose channel the logger publishes on, and whether a goroutine waits for a connection to be
-- closed.
pub record Link : Type 0 where
  pub connection : Option ℕ
  pub watched : Bool

-- `connect`, with `true` for an error. The goroutine is started before the channel is asked for.
unfoldable pub connect : Attempt → Link → Bool × Link
connect dial_fails link = (true, link)
connect (channel_fails n) link = (true, record link { watched = true })
connect (declare_fails n) link = (true, record { connection = some n; watched = true })
connect (connects n) link = (false, record { connection = some n; watched = true })

-- The watched connection is closed: after five seconds the goroutine calls `connect` once, and only logs an
-- error.
unfoldable pub on_close : Attempt → Link → Link
unfolding connect
on_close attempt link =
    let reconnected = (connect attempt (record link { watched = false })).1 in
    if link.watched then reconnected else link

-- Connections are closed, and `connect` comes as far as the list says each time.
unfoldable pub run : List Attempt → Link → Link
unfolding on_close
run [] link = link
run (attempt ∷ attempts) link = run attempts (on_close attempt link)

run-unwatched :
    (attempts : List Attempt) (c : Option ℕ)
    → run attempts (record { connection = c; watched = false })
      ≡ record { connection = c; watched = false }
unfolding run on_close
run-unwatched [] c = refl
run-unwatched (attempt ∷ attempts) c = run-unwatched attempts c

-- After a call of `connect` whose `Dial` fails, no other call follows: the logger keeps the connection that was
-- closed.
pub failed_dial-run :
    (attempts : List Attempt) (c : Option ℕ)
    → (run (dial_fails ∷ attempts) (record { connection = c; watched = true })).connection ≡ c
unfolding run on_close connect
failed_dial-run attempts c = ap (λ l. l.connection) (run-unwatched attempts c)
