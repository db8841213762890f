-- ===== src/DeltaChat/Transport/Leaks.antt =====
-- dc_transport.py: what becomes of the temporary files of a message. The `finally` around the delivery
-- removes them; the loop that downloads them stands before the `try`.
use delta_gateway_chat_woot.Base.{
  ℕ, String, List, [], ◌∷◌, ◌++◌, All, true, false, some, ◌≡◌, refl, sym, ap, ◌∙◌,
}
use delta_gateway_chat_woot.Errors.{Exc, Result, ok, err}
use delta_gateway_chat_woot.Exec.{Exec, continue, ◌>>=◌, pure}
use delta_gateway_chat_woot.Exec.Kept.{bind_returned}
use delta_gateway_chat_woot.Models.{Envelope, ChannelDeliveryResult}
use delta_gateway_chat_woot.Values.{Value, arr, obj, nil, or_value, get_value, iterate}
use delta_gateway_chat_woot.World.{World}
use delta_gateway_chat_woot.DeltaChat.Routing.{Route}
use delta_gateway_chat_woot.DeltaChat.Transport.{
  Sending, Urls, Outside, Settings, Prepared, outside, checked, download_attachment, download_each,
  unlink_all, finally,
}
use delta_gateway_chat_woot.DeltaChat.Transport.Send.{deliver, send_native}
use delta_gateway_chat_woot.DeltaChat.Transport.Files.{
  has, download_attachment-makes, unlink_all-removes,
}

-- The paths of files in front of a list, the last one first.
abbrev pub paths_onto : List Prepared → List String → List String
paths_onto [] l = l
paths_onto (p ∷ ps) l = paths_onto ps (p.temp_path ∷ l)

module _ {Q : Type 0} (urls : Urls) (out : Outside (World Q)) (settings : Settings) where
  -- What the loop does once its first download has returned.
  abbrev others : List Value → Prepared → Exec (Sending Q) (List Prepared)
  others more p = download_each urls out settings more >>= λ ps. pure (p ∷ ps)

  -- A loop that returned: its first download and the others have.
  Downloaded : Value → List Value → Sending Q → List Prepared → Sending Q → Type 0
  Downloaded a more s files t =
      let first = download_attachment urls out settings a s in
      let later = download_each urls out settings more first.1 in
      (p : Prepared) × (ps : List Prepared) × (first ≡ (ok p, first.1))
      × (later ≡ (ok ps, t))
      × (files ≡ p ∷ ps)

  download_each-Downloaded :
      (a : Value) (more : List Value) (s t : Sending Q) (files : List Prepared)
      → download_each urls out settings (a ∷ more) s ≡ (ok files, t)
      → Downloaded a more s files t
  unfolding download_each Downloaded
  download_each-Downloaded a more s t files h =
      let (p, is_p, rest) =
        bind_returned (download_attachment urls out settings a) (others more) s t files h in
      let u = (download_attachment urls out settings a s).1 in
      let (ps, is_ps, end) =
        bind_returned (download_each urls out settings more) (λ ps. pure (p ∷ ps)) u t files rest in
      let same : ok (p ∷ ps) ≡ ok files = ap (λ o. o.0) end in
      let ended : (download_each urls out settings more u).1 ≡ t = ap (λ o. o.1) end in
      (p, ps, is_p, is_ps ∙ ap (λ u. (ok ps, u)) ended, cc same)

  download_each-makes :
      (attachments : List Value) (s t : Sending Q) (files : List Prepared)
      → download_each urls out settings attachments s ≡ (ok files, t)
      → t.temp_files ≡ paths_onto files s.temp_files
  unfolding download_each Downloaded
  download_each-makes [] s t files h =
      let same : ok [] ≡ ok files = ap (λ o. o.0) h in
      let ended : s ≡ t = ap (λ o. o.1) h in
      let none : [] ≡ files = cc same in rw (sym ended) (rw (sym none) refl)
  download_each-makes (a ∷ more) s t files h =
      let (p, ps, is_p, is_ps, same) = download_each-Downloaded a more s t files h in
      let u = (download_attachment urls out settings a s).1 in
      rw same (
        download_each-makes more u t ps is_ps
        ∙ ap (paths_onto ps)
            (download_attachment-makes urls out settings a s p (ap (λ o. o.0) is_p)))

  -- A file that is refused ends the loop, with the files before it made.
  download_each-refuses :
      (before rest : List Value) (bad : Value) (e : Exc) (s t : Sending Q) (files : List Prepared)
      → checked urls out settings bad ≡ err e
      → download_each urls out settings before s ≡ (ok files, t)
      → download_each urls out settings (before ++ bad ∷ rest) s ≡ (err e, t)
  unfolding download_each download_attachment Downloaded
  download_each-refuses [] rest bad e s t files r h = rw r (ap (λ o. (err e, o.1)) h)
  download_each-refuses (a ∷ before) rest bad e s t files r h =
      let (p, ps, is_p, is_ps, same) = download_each-Downloaded a before s t files h in
      let u = (download_attachment urls out settings a s).1 in
      let refused = download_each-refuses before rest bad e u t ps r is_ps in
      rw is_p (rw refused refl)

  continue_state :
      {A B : Type 0} (r : Result A) (b : B) (s : Sending Q) → (continue r (λ _. pure b) s).1 ≡ s
  continue_state (ok a) b s = refl
  continue_state (err e) b s = refl

  finally_state :
      {A : Type 0} (m : Exec (Sending Q) (Unit {0})) (f : Sending Q → Sending Q) (a : A)
      (s : Sending Q)
      → (continue
          (finally urls out settings m f s).0
          (λ _. pure a)
          (finally urls out settings m f s).1).1
        ≡ f (m s).1
  unfolding finally
  finally_state m f a s = continue_state (m s).0 a (f (m s).1)

  -- When the downloads of a message have returned, none of their files is left after the delivery,
  -- whether it returns or raises.
  pub send_native-cleans :
      (route : Route) (envelope : Envelope) (address text : String) (s : Sending Q) (account : ℕ)
      (w : World Q) (given : Value) (attachments : List Value) (files : List Prepared)
      (t : Sending Q)
      → out.get_account route.connector_id s.world ≡ (ok account, w)
      → get_value "attachments" (obj envelope.payload) ≡ ok given
      → iterate (or_value given (arr nil)) ≡ ok attachments
      → download_each urls out settings attachments (record s { world = w }) ≡ (ok files, t)
      → All
          (λ p.
            has p.temp_path
              (send_native urls out settings route envelope address text s).1.temp_files
            ≡ false)
          files
  unfolding send_native outside
  send_native-cleans route envelope address text s account w given attachments files t got read all
        done =
      let delivery = deliver urls out settings account address envelope.sender.name text files in
      let answer : ChannelDeliveryResult = record {
        delivered = true;
        external_id = some address;
      } in
      let ended = finally_state delivery (unlink_all urls out settings files) answer t in
      let removed = unlink_all-removes urls out settings files (delivery t).1 in
      rw got (rw read (rw all (rw done (rw ended removed))))

  -- If the files `before` one that is refused were downloaded, the delivery raises what refused it,
  -- and those files are still on the disk.
  pub send_native-leaks :
      (route : Route) (envelope : Envelope) (address text : String) (s : Sending Q) (account : ℕ)
      (w : World Q) (given : Value) (before rest : List Value) (bad : Value) (e : Exc)
      (files : List Prepared) (t : Sending Q)
      → out.get_account route.connector_id s.world ≡ (ok account, w)
      → get_value "attachments" (obj envelope.payload) ≡ ok given
      → iterate (or_value given (arr nil)) ≡ ok (before ++ bad ∷ rest)
      → download_each urls out settings before (record s { world = w }) ≡ (ok files, t)
      → checked urls out settings bad ≡ err e
      → (send_native urls out settings route envelope address text s ≡ (err e, t))
        × (t.temp_files ≡ paths_onto files s.temp_files)
  unfolding send_native outside
  send_native-leaks route envelope address text s account w given before rest bad e files t got read
        all done r =
      let begun = record s { world = w } in
      let refused = download_each-refuses before rest bad e begun t files r done in
      (rw got (rw read (rw all (rw refused refl))), download_each-makes before begun t files done)
