-- ===== src/Tests/Calls.antt =====
-- The theorems on whole calls, at a call of each kind of result.
use perfkit.Prelude.{ℕ, ◌≡◌, refl, Bool, true, some, [], ◌∷◌}
use perfkit.Context.{Error, not_authorized}
use perfkit.Wire.{Bytes}
use perfkit.Agent.{answer}
use perfkit.Bus.{ObjectPath, ErrorText, TimeText, TimeTextLaw}
use perfkit.Bus.Shapes.{yields, fits_names, seen_answer}
use perfkit.Bus.Tables.{replied, finished}
use perfkit.Bus.Returns.{answer_returns}
use perfkit.Bus.Calls.{remote_call, remote_direct}
use perfkit.Listener.{texts}
use perfkit.Listener.Serve.{on_channel, channel_stop, on_manager, manager_get_plugins, serve}
use perfkit.Tests.Requests.{outside, agent}

abbrev first_word : Bytes → ℕ
first_word [] = 0
first_word (n ∷ s) = n

-- A time is written as one word.
abbrev word_time : TimeText
word_time = record { to_text = λ n. n ∷ []; from_text = first_word }

word_time_law : TimeTextLaw word_time
word_time_law = record { back = λ n. refl }

-- The errors' texts.
abbrev text_of : Error → Bytes
text_of not_authorized = 110 ∷ 111 ∷ []
text_of _ = []

abbrev texts_of : ErrorText
texts_of = record { failed_name = 70 ∷ 97 ∷ []; message = text_of }

abbrev all_paths : ObjectPath → Bool
all_paths p = true

answer_returns_example :
    finished word_time (on_manager manager_get_plugins) (
      replied texts_of word_time
        (on_manager manager_get_plugins)
        (answer (texts (some ((99 ∷ 112 ∷ []) ∷ (109 ∷ []) ∷ [])))))
    ≡ seen_answer texts_of (answer (texts (some ((99 ∷ 112 ∷ []) ∷ (109 ∷ []) ∷ []))))
answer_returns_example =
    answer_returns texts_of word_time word_time_law (on_manager manager_get_plugins)
      (answer (texts (some ((99 ∷ 112 ∷ []) ∷ (109 ∷ []) ∷ []))))
      (yields (texts (some ((99 ∷ 112 ∷ []) ∷ (109 ∷ []) ∷ [])))
        (fits_names ((99 ∷ 112 ∷ []) ∷ (109 ∷ []) ∷ []) refl))

remote_direct_example :
    remote_call all_paths texts_of word_time outside (on_channel 0 channel_stop) agent ≡ (
      (serve outside (on_channel 0 channel_stop) agent).0,
      seen_answer texts_of (serve outside (on_channel 0 channel_stop) agent).1,
    )
remote_direct_example =
    remote_direct all_paths texts_of word_time word_time_law outside (on_channel 0 channel_stop)
      agent refl refl refl
