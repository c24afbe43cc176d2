-- ===== src/Lib.antt =====
-- sophons is a tool that applies Ansible playbooks without Python: a dialer copies an executer and
-- the playbook to each node, and the executer runs the plays that are for its node. This library
-- models the executer, which is cmd/executer and the packages under pkg that it calls, the dialer, and
-- the tools that compare sophons with Ansible.
--
-- Base        lists, Boolean tests, and Go's strings, maps, integers and errors. Base/Action has
--             functions that change a state and may return an error or panic: a state that was
--             changed before an error stays changed. Base/Text and Base/Number have what is called
--             of the packages strings, strconv and fmt, over code points. A map is an association
--             list in the order in which one run ranges over it. Base/Congruence says when two chains
--             of calls do the same.
-- Variables   pkg/variables: a variable's value, Merge and LoadFromFile.
-- Os          the calls of os, io/fs, os/user and path/filepath, as a parameter: any call may fail,
--             and nothing is assumed of the machine.
-- Util        pkg/exec/util/util.go: GetUid, GetGid. Util/Mode is pkg/exec/util/mode.go.
-- Result      pkg/exec/task.go: CommonResult, and the way in which every Apply fills in its result
--             beside the error. Result/Consistent and Result/Honest have the rules by which the
--             theorems on reports and on changes are proved, one rule for each way of composing;
--             Result/Preserves has those for what stays true of the machine, and Result/Inversion
--             says what a chain that returned has read.
-- Reports     what the tasks that use Result have in common.
-- File        pkg/exec/file.go: Validate, needsModeOrOwnershipChange (File/Attributes) and Apply
--             (File/Apply), one definition for each case of its switch.
-- Command     pkg/exec/command_executor.go, command.go (Command/Apply) and shell.go (Command/Shell),
--             over a parameter for the process that is started. Command/Runs says what is asked of it.
-- Apt         pkg/exec/apt.go over the interface aptClient: handleUpdate (Apt/Cache) and Apply.
-- AptRepository  pkg/exec/apt_repository.go over the same interface and net/url.
-- Copy        pkg/exec/copy.go: Validate and Apply, over a parameter for path/filepath. WalkDir, here
--             and in File, lists its entries before the first callback.
-- GetUrl      pkg/exec/get_url.go: Validate and Apply, over a parameter for net/http and net/url.
-- Template    pkg/exec/template.go: Validate and Apply, over a parameter for gonja and the sums SHA1
--             and MD5. Template/Settles is on a second run.
-- Include     pkg/exec/include_tasks.go and import_tasks.go: a file of tasks is read and each of them
--             applied, which may include files again.
-- Inventory   pkg/inventory/inventory.go: Find, All and NodeVars, by recursion over the groups.
-- Task        pkg/exec/task.go and pkg/exec/util/jinja.go: FromProto, processAndRunTask and
--             ExecuteTask (Task/Execute), conditions and templates (Task/Template). Tasks share the
--             machine, the variables of the context, which are one map, and a heap of contents: a
--             content is rendered in place, and a loop copies it for each item. Task/Honest is the
--             interface of contents that are honest about changes, and Task/FileContents fills it.
--             Task/Process is ProcessJinjaTemplates on a content as reflection shows it; the runs of
--             tasks take it as the operation `process` of a content.
-- Role        pkg/role: Apply, and in Role/Load the discovery of roles with the order in which
--             variables and tasks are looked for.
-- Playbook    pkg/playbook and playbookApply of cmd/executer/main.go, which runs the roles of a play
--             and then its tasks in the variables of the play. Playbook/Main is the function main.
-- Proto       the YAML methods of pkg/proto, over a parameter for goccy/go-yaml: Mode, lists of
--             packages (Proto/Packages), other names of parameters (Proto/Aliases), and lists of tasks
--             (Proto/Tasks).
-- Dialer      pkg/dialer and cmd/dialer (Dialer/Main), over a record of the calls on one connection.
-- Archive     pkg/util/tar.go: Tar as the members that it writes, and Untar.
-- Tardiff     cmd/tardiff: tarToEntries, and the comparison of main down to the exit code.
-- Conformance cmd/conformance: the goroutines of run are a step relation on the queue, the workers and
--             the channel of errors; Conformance/Harness and Conformance/Test are the test of one
--             playbook in containers.
-- Tests       each theorem at a concrete input.
--
-- How the parts meet: Playbook calls Role for the roles of a play and Task for its tasks; Task calls
-- a content through the interface TaskContent, here the record Contents, which Task/FileContents gives
-- for File and which Include takes, with the messages of Proto/Tasks; Command, Apt, AptRepository,
-- Template, Copy and GetUrl stand alone. Proto/Aliases fills the records of Apt, File and
-- AptRepository. File, Command, Apt, AptRepository and Template fill in a Result.State; the results of
-- Copy and GetUrl are constant. The main of the executer joins Inventory, Archive, Role/Load and
-- Playbook. Dialer sends what Archive packs, and Conformance runs Dialer and Tardiff as commands.
--
-- Bounds: every recursion is structural, over lists, the groups of an inventory, text and derivations,
-- with these exceptions. The octal digits of a number have as much fuel as a number of that width has
-- digits: eleven for 32 bits and 22 for 64. The attempts to reach a container are 20, as in the code.
-- Files of tasks that include files are nested to the depth of a fuel: Include/Termination says how
-- much is enough. Numbers that become an os.FileMode or an id wrap at 2 ^ 32; ParseUint and Atoi
-- refuse what does not fit.
--
-- Not modelled: the flags and the listing of conformance, and docgen, which writes documentation from
-- the syntax trees of the sources. YAML, the template engine, processes, SSH, archive/tar,
-- go-apt-client and net/url are parameters. The values that an error's message formats and what is
-- logged are left out.
pub mod Base
pub mod Variables
pub mod Os
pub mod Util
pub mod Result
pub mod File
pub mod Command
pub mod Copy
pub mod Apt
pub mod AptRepository
pub mod GetUrl
pub mod Inventory
pub mod Task
pub mod Role
pub mod Playbook
pub mod Proto
pub mod Template
pub mod Include
pub mod Tardiff
pub mod Conformance
pub mod Dialer
pub mod Archive
pub mod Reports
pub mod Tests
