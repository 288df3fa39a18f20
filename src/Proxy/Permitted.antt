-- ===== src/Proxy/Permitted.antt =====
-- What is forwarded (handle of internal/server/proxy.go): only requests that the policies of the routed
-- API permit, from an authentic caller, with that caller's credentials. The meta requests that an
-- evaluation makes on its way are no part of this: they change its world.
use bouncer.Auth.Library.{Library}
