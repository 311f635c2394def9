-- ===== src/Sandbox.antt =====
-- The sandbox, platform/backend/app/sandbox, in which a user tries a server out.
pub mod Session
pub mod Oauth
pub mod OauthServers
pub mod AuthSignals
pub mod Classifier
pub mod Readme
