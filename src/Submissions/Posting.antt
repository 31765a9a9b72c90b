-- ===== src/Submissions/Posting.antt =====
-- Who may post to src/domain/submissions, and what a post is at first.
use box_fraise_server.Members.Repository as MemberTable
use box_fraise_server.Submissions.Types.{Submissions}
use box_fraise_server.Submissions.Repository
