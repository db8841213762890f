-- ===== src/DeltaChat/Client/Events.antt =====
-- channels/delta_chat_channel/dc_client.py: one turn of an account's event loop.
pub mod Turns
use delta_gateway_chat_woot.Base.{
  ℕ, ℤ, pos, decimal, parse_int, String, str_eq, lower, trim, Bool, true, false, not, List, [], ◌∷◌,
  Option, none, some, if◌then◌else◌,
}
use delta_gateway_chat_woot.Errors.{Exc, type_error, value_error, Result, ok, err, ◌>>=ᵣ◌}
use delta_gateway_chat_woot.Exec.{Exec, ◌>>=◌, ◌>>◌, pure, lift, attempt}
use delta_gateway_chat_woot.Values.{
  Value, null, bool, int, str, arr, obj, end, Members, arr_of, obj_of, truthy, or_value, get_value,
}
use delta_gateway_chat_woot.Values.Text.{text_of}
use delta_gateway_chat_woot.DeltaChat.Attachments.{Files}
use delta_gateway_chat_woot.DeltaChat.Extract.{get_either, int_of, extract_delta_chat_attachments}
use delta_gateway_chat_woot.DeltaChat.Client.{RuntimeAccount}

-- The core, as the loop of one account calls it; `full_snapshot` is `_wait_for_full_message`.
pub record EventCore (S : Type 0) : Type 0 where
  pub stop_event : S → Bool
  -- get_account and wait_for_event: the kind and the id of the message
  pub wait_for_event : Exec S (String × ℕ)
  pub get_snapshot : ℕ → Exec S Value
  pub full_snapshot : ℕ → Value → Exec S Value
  pub get_sender_snapshot : ℕ → Exec S Value
  pub get_chat_snapshot : ℤ → Exec S Value

-- str(v or "")
abbrev pub text_or_empty : Value → String
text_or_empty v = text_of (or_value v (str ""))

unfoldable pub sender_address : Value → Result String
sender_address sender = get_either "address" "email" sender >>=ᵣ λ a. ok (text_or_empty a)

-- a.strip().lower()
abbrev pub plain : String → String
plain a = lower (trim a)

unfoldable pub payload_of :
    Files → RuntimeAccount → ℕ → Value → Value → Value → Value → String → Result Members
payload_of files account msg_id snapshot chat_id sender chat address =
    extract_delta_chat_attachments files snapshot >>=ᵣ λ attachments.
    get_value "id" snapshot >>=ᵣ λ id. get_value "id" sender >>=ᵣ λ sender_id.
    get_either "display_name" "name" sender >>=ᵣ λ name. get_value "text" snapshot >>=ᵣ λ text.
    get_value "chat_type" chat >>=ᵣ λ chat_type. get_value "is_info" snapshot >>=ᵣ λ is_info. ok (
      obj_of (
        ("account_id", int (pos account.account_id))
        ∷ ("connector_id", str account.connector_id)
        ∷ ("message_id", str (text_of (or_value id (int (pos msg_id)))))
        ∷ ("chat_id", str (text_or_empty chat_id))
        ∷ ("sender_id", str (text_or_empty sender_id))
        ∷ ("sender_address", str address)
        ∷ ("sender_name", name)
        ∷ ("text", str (text_or_empty text))
        ∷ ("attachments", arr (arr_of attachments))
        -- .upper() == "GROUP"
        ∷ ("is_group", bool (str_eq (lower (text_or_empty chat_type)) "group"))
        ∷ ("is_info", bool (truthy is_info))
        ∷ []))

module _ {S : Type 0} (core : EventCore S) (files : Files) (account : RuntimeAccount)
    (handler : Members → Exec S (Unit {0})) where
  -- {} for None
  chat_snapshot_of : Value → Exec S Value
  chat_snapshot_of null = pure (obj end)
  chat_snapshot_of v = do i ← lift (int_of v); core.get_chat_snapshot i

  -- The account's own messages are not handed on.
  hand_on : String → Members → Exec S (Unit {0})
  hand_on address payload =
      if str_eq (plain address) (plain account.address) then pure tt else handler payload

  -- the second `try`
  unfoldable pub take_message : ℕ → Exec S (Unit {0})
  unfolding chat_snapshot_of hand_on int_of
  take_message msg_id = do
    first ← core.get_snapshot msg_id
    snapshot ← core.full_snapshot msg_id first
    sender ← core.get_sender_snapshot msg_id
    chat_id ← lift (get_value "chat_id" snapshot)
    chat ← chat_snapshot_of chat_id
    address ← lift (sender_address sender)
    payload ← lift (payload_of files account msg_id snapshot chat_id sender chat address)
    hand_on address payload

  -- except Exception: continue
  skip : Exc → Exec S (Unit {0})
  skip e = pure tt

  handle_kind : Bool → String → ℕ → Exec S (Unit {0})
  handle_kind registered kind msg_id =
      if str_eq kind "IncomingMsg"
      then if registered then attempt (take_message msg_id) skip else pure tt
      else pure tt

  unfoldable pub handle_event : Bool → String → ℕ → Exec S (Unit {0})
  unfolding handle_kind skip
  handle_event registered kind msg_id s =
      if core.stop_event s then (ok tt, s) else handle_kind registered kind msg_id s

  -- A turn of the loop; the result says whether the thread goes on.
  after_event : Bool → Result (String × ℕ) → Exec S Bool
  after_event registered (ok (kind, msg_id)) s =
      let (r, s') = handle_event registered kind msg_id s in (r >>=ᵣ λ _. ok true, s')
  after_event registered (err e) s = (ok (not (core.stop_event s)), s)

  unfoldable pub turn : Bool → Exec S Bool
  unfolding after_event
  turn registered s =
      if core.stop_event s
      then (ok false, s)
      else (let (r, s') = core.wait_for_event s in after_event registered r s')
