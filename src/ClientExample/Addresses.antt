-- ===== src/ClientExample/Addresses.antt =====
-- The addresses that client-example takes.
use dcr_sdk.Common.{◌≡◌, ◌≢◌, false, List, ◌∷◌, ◌++◌, Bytes, ok, none}
use dcr_sdk.Config.HostPort.{colon, opening, starts_with, split_host_port}
use dcr_sdk.Config.HostPort.Lists.{split_host_port-two_colons}
use dcr_sdk.Contract.Request.{Request}
use dcr_sdk.Certs.{Pki, Certificate}
use dcr_sdk.Files.{FileSystem}
use dcr_sdk.Mtls.{MtlsClient}
use dcr_sdk.ClientExample.{Flags, start}
use dcr_sdk.ClientExample.Restart.{start-Parts}

-- client-example makes no client of -addr with two colons, as that of any two addresses with their
-- ports, unless it starts with a bracket, whatever its other flags and its files are.
pub start-two_addrs :
    (pki : Pki) (carried : List Certificate × List Certificate) (pool : List Request) (f : Flags)
    (fs : FileSystem) (s t u : Bytes) (made : MtlsClient)
    → f.addr ≡ s ++ colon ∷ (t ++ colon ∷ u)
    → starts_with opening f.addr ≡ false
    → start pki carried pool f fs ≢ ok made
start-two_addrs pki carried pool f fs s t u made two bare started =
    let was = (start-Parts pki carried pool f fs made started).1 in
    let refused : split_host_port f.addr ≡ none =
      rw two (split_host_port-two_colons s t u (rw two at bare)) in
    cc was.named
