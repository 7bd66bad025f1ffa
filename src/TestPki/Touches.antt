-- ===== src/TestPki/Touches.antt =====
-- A touch from end to end, with the certificates of the test PKI.
use dcr_sdk.Common.{
  ℕ, ◌+◌, ◌<◌, ◌≡◌, ap, ◌∙◌, Bool, true, false, Option, some, List, Bytes, All, is_empty, ok,
}
use dcr_sdk.Config.{Configuration}
use dcr_sdk.Certs.{Pki, Certificate}
use dcr_sdk.Contract.Register
use dcr_sdk.Contract.Request.{Request}
use dcr_sdk.Contract.Pools.{IsFresh}
use dcr_sdk.Messages.{TouchRequest, TouchResponse}
use dcr_sdk.Payer.{UuidLibrary}
use dcr_sdk.Auth.{NetConn}
use dcr_sdk.Client.Requests.{Protobuf, Transport, Returned, touch}
use dcr_sdk.Client.Delivery.{Carries}
use dcr_sdk.Mtls.{MtlsConfig, MtlsClient, new_with_mtls, get_client_certificate}
use dcr_sdk.Cloud.{member}
use dcr_sdk.Cloud.Grants.{touch_answer}
use dcr_sdk.Cloud.Serve.{partner_of}
use dcr_sdk.EndToEnd.{CloudSide, IsCarried}
use dcr_sdk.EndToEnd.Calls.{cloud_after, Fits}
use dcr_sdk.EndToEnd.Touches.{touch-granted}
use dcr_sdk.TestPki.{Generator, Certificates, new_certificates}
use dcr_sdk.TestPki.Identity.{Issues, new_certificates-IsPki, stored, partner_of-stored}
use dcr_sdk.TestPki.Clients.{NeverNil, with_certificates, shaken, made-IsClient}

module _ (pki : Pki) (check_status : Certificate → Option Certificate → Option Bool)
    (uuid_of : Certificate → Bytes) (uuid : UuidLibrary) (gen : Generator)
    (issues : Issues pki uuid_of gen) (never_nil : NeverNil gen) (proto : Protobuf)
    (side : CloudSide) (transport : Transport) where
  -- A touch of a client that `NewWithMTLS` made of the client certificate of a test PKI is answered
  -- by a cloud with the PKI's TLS configuration that grants touches to the PKI's partner, over
  -- connections on which that certificate was presented: where fastrpc carries the requests, each end
  -- decodes what the other encodes, both messages are within the size limit and the writers' room, and
  -- the request's is not empty, `Touch` returns the cloud's answer, and a request that carries the
  -- message makes the PKI's partner the last caller, and changes nothing else of the cloud.
  pub touch-known :
      (draw : ℕ) (times : ℕ × ℕ) (certs : Certificates)
      (carried : List Certificate × List Certificate) (pool : List Request)
      (cfg : Option Configuration) (m : MtlsConfig) (made : MtlsClient) (conn : NetConn)
      (choice : ℕ) (req : TouchRequest) (raw bytes : Bytes)
      → new_certificates uuid gen draw times ≡ ok certs
      → All IsFresh pool
      → new_with_mtls pki carried pool cfg (with_certificates m certs) ≡ ok made
      → side.conn
        ≡ (shaken pki check_status uuid_of uuid gen certs conn
            (get_client_certificate made.provider).certificate).0
      → member certs.client_id side.server.cfg.touch_partners ≡ true
      → IsCarried uuid side transport
      → proto.marshal_touch req ≡ some raw
      → side.codec.unmarshal_touch raw ≡ some req
      → side.codec.marshal_touch touch_answer ≡ some bytes
      → proto.unmarshal_touch bytes ≡ some touch_answer
      → is_empty raw ≡ false
      → Fits uuid side raw
      → Fits uuid side bytes
      → (out : Returned TouchRequest TouchResponse) × (sent : Request) × (touch uuid proto transport
            choice made.client req
          ≡ some out)
        × (out.result ≡ ok touch_answer)
        × Carries sent Register.touch raw
        × (cloud_after uuid side sent ≡ record side.server { last_caller = some certs.client_id })
  touch-known draw times certs carried pool cfg m made conn choice req raw bytes generated fresh
        is_ok shaken_hands granted delivered encoded decoded answered read full sized sized_answer =
      let is_pki = new_certificates-IsPki uuid gen draw times certs generated in
      let client =
        made-IsClient pki check_status uuid_of uuid gen issues never_nil draw times certs carried
          pool cfg m made generated fresh is_ok in
      let is_stored : side.conn ≡ stored conn certs.client_id =
        shaken_hands ∙ ap (λ t. t.0) (client.known conn) in
      let positive : 0 < certs.client_id = rw is_pki.identified ((never_nil (is_pki.draw + 1)).0) in
      let known : partner_of side.conn ≡ some certs.client_id =
        rw is_stored (partner_of-stored conn certs.client_id positive) in
      touch-granted uuid proto side transport made.client choice certs.client_id req raw bytes
        delivered client.usable encoded decoded answered read full sized sized_answer known granted
