-- ===== src/Cloud/Grants.antt =====
-- Which partners get an answer to a touch.
use dcr_sdk.Common.{ℕ, ◌≡◌, refl, codes, true, some, Bytes}
use dcr_sdk.Messages.{TouchRequest, TouchResponse}
use dcr_sdk.Payer.{UuidLibrary}
use dcr_sdk.Contract.Status
use dcr_sdk.Cloud.{CloudCodec, Server, message, member, handle_touch, touch_of}

-- `TouchUserID` and what else a granted touch is answered with.
abbrev pub touch_answer : TouchResponse
touch_answer = record {
  user_id = codes "test-cloud-user";
  accuracy = 1;
  label = codes "test-telecom";
}

module _ (uuid : UuidLibrary) where
  pub handle_touch-granted :
      (codec : CloudCodec) (text : ℕ → ℕ → Bytes) (s : Server) (partner : ℕ) (body bytes : Bytes)
      (req : TouchRequest)
      → member partner s.cfg.touch_partners ≡ true
      → codec.unmarshal_touch body ≡ some req
      → codec.marshal_touch touch_answer ≡ some bytes
      → handle_touch uuid codec text s partner body ≡ (s, Status.ok, message bytes)
  unfolding handle_touch touch_of
  handle_touch-granted codec text s partner body bytes req granted decoded encoded =
      rw (granted, decoded, encoded) refl
