-- ===== src/Voters.antt =====
-- packages/nextjs/services/voters, with the route app/api/self-enrol: the invites by which citizens
-- enrol their own devices.
pub mod EnrolmentInvites
pub mod EnrolmentToken
pub mod EnrolRelay
pub mod SelfEnrol
