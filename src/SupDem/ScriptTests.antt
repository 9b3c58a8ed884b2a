-- ===== src/SupDem/ScriptTests.antt =====
-- Scripts of hw1/tester.c, sent in pieces to the server of hw1/supdemserv.c.
use advanced_unix_ceng.Base.{
  ℕ, ◌+◌, ◌/◌, ◌≡◌, refl, [], List, Option, none, some, Bool, true, arith, replicate,
}
use advanced_unix_ceng.Base.Int.{pos}
use advanced_unix_ceng.SupDem.InputTests.{small_memory, wishes, wishes-length, wrap32-KeepsInts}
use advanced_unix_ceng.SupDem.Serve.EndToEnd.{text_of}
use advanced_unix_ceng.SupDem.Session.{before_nul}
use advanced_unix_ceng.SupDem.Tester.{
  Socket, Write, send_from, send_command, fgets_bytes, fgets, chomp, same_text, send_line,
  script_rounds, run_script, run_interactive_mode,
}
use advanced_unix_ceng.SupDem.Tester.EndToEnd.{ServedByScript, run_script-serve_commands}
use advanced_unix_ceng.SupDem.Tester.Send.{Accepts}
use advanced_unix_ceng.SupDem.Text.{codes}
use advanced_unix_ceng.SupDem.Word.{wrap32}

-- A connection that takes half of what it is given.
abbrev halves : Write
halves k size = pos ((size + 1) / 2)

halves-Accepts : Accepts halves
halves-Accepts = record { some_bytes = λ k size lt. omega arith; no_more = λ k size. omega arith }

abbrev always : ℕ → Bool
always k = true

-- Nothing is sent after quit, and a last line needs no newline.
sent_or_none : Option Socket → List ℕ
sent_or_none o = elim o [ none ↦ [] | some after ↦ after.sent ]

short_script :
    sent_or_none (run_script always halves (codes "unwatch\nquit\nmove 1 2\n"))
    ≡ codes "unwatch\nquit\n"
unfolding sent_or_none run_script script_rounds fgets fgets_bytes before_nul chomp same_text
    send_line send_command send_from
short_script = refl

last_line : sent_or_none (run_script always halves (codes "\nmove 1 2")) ≡ codes "\nmove 1 2\n"
unfolding sent_or_none run_script script_rounds fgets fgets_bytes before_nul chomp same_text
    send_line send_command send_from
last_line = refl

run_script-serve_commands_example :
    ServedByScript wrap32 small_memory 0 wishes
      (replicate 30 7)
      (run_script always halves (text_of wishes))
    × ServedByScript wrap32 small_memory 0 wishes
        (replicate 30 7)
        (run_interactive_mode always halves (text_of wishes))
run_script-serve_commands_example =
    run_script-serve_commands wrap32 always halves small_memory 0 wishes (replicate 30 7)
      wrap32-KeepsInts (λ k. refl) halves-Accepts (omega arith) (omega arith) wishes-length
