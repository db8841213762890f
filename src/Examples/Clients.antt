-- ===== src/Examples/Clients.antt =====
-- The theorems on the Chatwoot client at a sample server.
use delta_gateway_chat_woot.Base.{ℕ, ◌+◌, pos, String, [], ◌∷◌, none, some}
use delta_gateway_chat_woot.Errors.{ok}
use delta_gateway_chat_woot.Exec.{Exec}
use delta_gateway_chat_woot.Values.{Value, null, str, int, arr, nil, dict_of}
use delta_gateway_chat_woot.Chatwoot.Http.{Request, Reply, Body, no_body}
use delta_gateway_chat_woot.Chatwoot.Counting.{PostsOne, counted}
use delta_gateway_chat_woot.Chatwoot.Deliver.{deliver}
use delta_gateway_chat_woot.Chatwoot.Once.{deliver-PostsOne}

-- a server that knows no contact and creates what it is asked to create
abbrev contact : Value
contact = dict_of (
    ("id", int (pos 7))
    ∷ ("email", null)
    ∷ ("name", str "Ann")
    ∷ ("phone_number", null)
    ∷ ("identifier", str "telegram_42")
    ∷ [])

abbrev created : Value
created = dict_of (
    ("id", int (pos 9))
    ∷ (
      "payload",
      dict_of (
          ("contact", contact)
          ∷ (
            "contact_inbox",
            dict_of (
                ("source_id", str "s")
                ∷ ("inbox", dict_of (("channel_id", int (pos 5)) ∷ []))
                ∷ []),
          )
          ∷ []),
    )
    ∷ [])

abbrev answer : Body String → Value
answer no_body = dict_of (("payload", arr nil) ∷ [])
answer _ = created

abbrev willing : Request String → Exec ℕ Reply
willing r n = (
  ok (record { status = 200; retry_after = none; json = ok (answer r.body); text = ok "" }),
  n + 1,
)

deliver-PostsOne_example : PostsOne (
    deliver
      (counted willing)
      "https://chat"
      (λ s. some s)
      (λ s. none)
      (pos 3)
      "telegram_42"
      (pos 5)
      (str "hello")
      (str "Ann")
      none
      none
      null)
deliver-PostsOne_example =
    deliver-PostsOne willing "https://chat" (λ s. some s) (λ s. none) (pos 3) "telegram_42" (pos 5)
      (str "hello") (str "Ann") none none null
