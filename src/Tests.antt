-- ===== src/Tests.antt =====
-- Runs of the models, and the theorems at concrete inputs.
mod Packets
mod Boxes
mod Acl
mod Tunwrap
mod Stun
mod Obfs
mod Relay
mod Vless
mod Totp
mod Disco
mod Sock
mod Paths
mod Bencode
mod Dht
mod Netcheck
mod Signin
mod Zone
mod Update
