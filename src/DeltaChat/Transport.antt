-- ===== src/DeltaChat/Transport.antt =====
-- channels/delta_chat_channel/dc_transport.py: the downloads of a message's files. urllib, pathlib,
-- the HTTP sessions and the core are a parameter; the temporary files are part of the state.
pub mod Files
pub mod Send
pub mod Leaks
use delta_gateway_chat_woot.Base.{
  ℕ, ◌+◌, leb, pos, String, append, str_eq, Bool, true, false, List, [], ◌∷◌, Option, none, some,
  or_else, any, if◌then◌else◌,
}
use delta_gateway_chat_woot.Errors.{
  Exc, fatal_error, value_error, type_error, transient_default, client_error, content_type_error,
  client_connector_error, server_disconnected_error, timeout_error, is_network_error, Result, ok,
  err, ◌>>=ᵣ◌,
}
use delta_gateway_chat_woot.Exec.{Exec, ◌>>=◌, ◌>>◌, pure, raise, lift, attempt, modify, when}
use delta_gateway_chat_woot.Models.{Envelope, ChannelDeliveryResult, id_text}
use delta_gateway_chat_woot.Values.{
  Value, null, int, str, arr, arr_of, obj, nil, dict_of, truthy, or_value, get_value, iterate,
}
use delta_gateway_chat_woot.Values.Text.{text_of}
use delta_gateway_chat_woot.World.{World}
use delta_gateway_chat_woot.Telegram.Prepare.{is_over_size_limit}
use delta_gateway_chat_woot.DeltaChat.Routing.{Routing, Route, get_route_by_connector_id}
use delta_gateway_chat_woot.DeltaChat.Extract.{
  ViewType, get_either, int_of, resolve_delta_chat_viewtype,
}
use delta_gateway_chat_woot.DeltaChat.Processor.{external_address}

pub record Sending (Q : Type 0) : Type 0 where
  pub temp_files : List String
  pub world : World Q

-- urlsplit and urlunsplit: the hostname, a URL with another's scheme and host, the last part of the
-- path, and the suffix of a file's name.
pub record Urls : Type 0 where
  pub hostname : String → Option String
  pub with_base : (url base : String) → String
  pub path_name : String → String
  pub suffix : String → String
  -- base_url.rstrip("/")
  pub strip_slashes : String → String

-- A response: its status and the sizes of the chunks of its body.
pub record Download : Type 0 where
  pub status : ℕ
  pub chunks : List ℕ

-- The world outside. `get_account` is that of the client; contacts and chats are numbers.
pub record Outside (S : Type 0) : Type 0 where
  pub get : String → Exec S Download
  pub write : String → ℕ → Exec S (Unit {0})
  pub temp_name : String → Exec S String
  pub get_account : String → Exec S ℕ
  pub get_contact_by_addr : ℕ → String → Exec S (Option ℕ)
  pub create_contact : ℕ → String → Option String → Exec S ℕ
  pub get_chat_by_contact : ℕ → ℕ → Exec S (Option ℕ)
  pub create_chat : ℕ → ℕ → Exec S ℕ
  pub send_text : ℕ → String → Exec S (Unit {0})
  pub send_file : ℕ → Option String → (path filename : String) → Option ViewType → Exec S (Unit {0})
  -- the status of a POST to the bridge
  pub post : String → Value → Exec S ℕ

pub record Settings : Type 0 where
  pub enable_native_deltachat_channel : Bool
  pub chatwoot_base_url : String
  pub chatwoot_upload_max_mb : ℕ
  pub has_session : Bool

-- a file that is ready to be sent
pub record Prepared : Type 0 where
  pub temp_path : String
  pub filename : String
  pub viewtype : Option ViewType

unfoldable pub without : String → List String → List String
without p [] = []
without p (q ∷ ps) = if str_eq q p then without p ps else q ∷ without p ps

module _ {Q : Type 0} (urls : Urls) (out : Outside (World Q)) (settings : Settings) where
  unfoldable pub outside : {A : Type 0} → Exec (World Q) A → Exec (Sending Q) A
  outside m s = let (r, w) = m s.world in (r, record s { world = w })

  -- if os.path.exists(path): os.unlink(path)
  unfoldable pub unlink : String → Sending Q → Sending Q
  unlink p s = record s { temp_files = without p s.temp_files }

  is_local : Option String → Bool
  is_local none = false
  is_local (some h) = any (str_eq h) ("localhost" ∷ "127.0.0.1" ∷ "::1" ∷ [])

  unfoldable pub resolve_attachment_url : String → String
  unfolding is_local
  resolve_attachment_url url =
      if is_local (urls.hostname url)
      then (let base = urls.strip_slashes settings.chatwoot_base_url in
          if str_eq base "" then url else urls.with_base url base)
      else url

  unfoldable pub save_chunks : String → ℕ → List ℕ → Exec (Sending Q) (Unit {0})
  save_chunks path downloaded [] = pure tt
  save_chunks path downloaded (n ∷ chunks) = do
    over ← lift (is_over_size_limit (int (pos (downloaded + n))) settings.chatwoot_upload_max_mb)
    let rest = save_chunks path (downloaded + n) chunks
    if over then raise fatal_error else (do outside (out.write path n); rest)

  unfoldable pub fetch : String → String → Exec (Sending Q) (Unit {0})
  fetch url path = do
    response ← outside (out.get url)
    if leb 400 response.status then raise fatal_error else save_chunks path 0 response.chunks

  pub new_temp_file : String → Exec (Sending Q) String
  new_temp_file suffix = do
    path ← outside (out.temp_name suffix)
    modify (λ s. record s { temp_files = path ∷ s.temp_files })
    pure path

  -- int(size) if size is not None else None
  optional_int : Value → Result Value
  optional_int null = ok null
  optional_int v = int_of v >>=ᵣ λ z. ok (int z)

  -- What is read of an attachment before its file is fetched.
  unfoldable pub checked : Value → Result (String × String × Option ViewType)
  unfolding optional_int
  checked attachment = get_either "data_url" "url" attachment >>=ᵣ λ given.
      if truthy given
      then (let url = resolve_attachment_url (text_of given) in
          if settings.has_session
          then (get_value "size" attachment >>=ᵣ λ given_size. optional_int given_size >>=ᵣ λ size.
              is_over_size_limit size settings.chatwoot_upload_max_mb >>=ᵣ λ over.
              if over
              then err fatal_error
              else (get_either "filename" "file_name" attachment >>=ᵣ λ name.
                  let filename =
                    text_of
                      (or_value name (or_value (str (urls.path_name url)) (str "attachment"))) in
                  resolve_delta_chat_viewtype attachment >>=ᵣ λ viewtype.
                  ok (url, filename, viewtype)))
          else err fatal_error)
      else err fatal_error

  pub discard : String → Exc → Exec (Sending Q) (Unit {0})
  discard path e = do modify (unlink path); raise e

  unfoldable pub download_attachment : Value → Exec (Sending Q) Prepared
  unfolding checked optional_int new_temp_file discard
  download_attachment attachment = do
    read ← lift (checked attachment)
    path ← new_temp_file (urls.suffix read.1)
    attempt (fetch read.0 path) (discard path)
    pure (record { temp_path = path; filename = read.1; viewtype = read.2 })

  unfoldable pub download_each : List Value → Exec (Sending Q) (List Prepared)
  download_each [] = pure []
  download_each (attachment ∷ rest) = do
    p ← download_attachment attachment
    ps ← download_each rest
    pure (p ∷ ps)

  unfoldable pub unlink_all : List Prepared → Sending Q → Sending Q
  unlink_all [] s = s
  unlink_all (p ∷ ps) s = unlink_all ps (unlink p.temp_path s)

  -- try: m finally: f
  unfoldable pub finally :
      Exec (Sending Q) (Unit {0}) → (Sending Q → Sending Q) → Exec (Sending Q) (Unit {0})
  finally m f s = let (r, s') = m s in (r, f s')
